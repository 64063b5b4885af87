-- ===== src/CommonSteps/Settings.antt =====
-- The settings of steps: multistep/commonsteps/iso_config.go, http_config.go, floppy_config.go and
-- extra_iso_config.go.
use packer_plugin_sdk.Prelude.{
  Result, failed, got, ℕ, zero, Bool, true, false, not, ◌&&◌, ◌||◌, Option, none, some, List, [],
  ◌∷◌, ◌++◌, String, if◌then◌else◌, ℤ, pos, negsuc, join, ltb, ◌==◌, str_eq, is_nil, text, codes,
  Map,
}
use packer_plugin_sdk.CommonSteps.Download.{has_suffix}

-- `ISOConfig`
pub record IsoConfig : Type 0 where
  pub iso_checksum : List ℕ
  pub raw_single_iso_url : String
  pub iso_urls : List String
  pub target_path : String
  pub target_extension : List ℕ

abbrev fail_if : Bool → String → List String
fail_if b e = if b then e ∷ [] else []

-- `get_checksum` is `GetChecksum` of the client for the first address, with the checksum in its query.
module _ (to_lower : List ℕ → List ℕ) (parse : String → Option String)
    (get_checksum : String → List ℕ → Result (List ℕ)) where
  abbrev ends_in_iso : List ℕ → List String
  ends_in_iso sum =
      fail_if (has_suffix (codes ".iso") (to_lower sum))
        "Error parsing checksum: .iso is not a valid checksum ending"

  -- From the checksum on: the warnings, the errors and the settings.
  unfoldable pub iso_checksum : String → IsoConfig → List String × List String × IsoConfig
  iso_checksum first c =
      if str_eq (text c.iso_checksum) "none"
      then (
        "A checksum of 'none' was specified. Since ISO files are so big,\na checksum is highly recommended."
            ∷ [],
        [],
        c,
      )
      else if is_nil c.iso_checksum
      then ([], "A checksum must be specified" ∷ ends_in_iso c.iso_checksum, c)
      else elim (parse first) [
        | some e ↦ ([], join "url parse: " e ∷ [], c)
        | none ↦ elim (get_checksum first c.iso_checksum) [
          | failed e ↦ ([], e ∷ ends_in_iso c.iso_checksum, c)
          | got sum ↦ ([], ends_in_iso sum, record c { iso_checksum = sum })
        ]
      ]

  abbrev one_url : IsoConfig → IsoConfig
  one_url c =
      if str_eq c.raw_single_iso_url ""
      then c
      else record c { iso_urls = c.raw_single_iso_url ∷ c.iso_urls; raw_single_iso_url = "" }

  abbrev with_extension : IsoConfig → IsoConfig
  with_extension c = record c {
    target_extension =
        to_lower (if is_nil c.target_extension then codes "iso" else c.target_extension);
  }

  -- `ISOConfig.Prepare`
  unfoldable pub prepare_iso : IsoConfig → List String × List String × IsoConfig
  prepare_iso c =
      if not (is_nil c.iso_urls) && not (str_eq c.raw_single_iso_url "")
      then ([], "Only one of iso_url or iso_urls must be specified" ∷ [], c)
      else elim (one_url c).iso_urls [
        | [] ↦ ([], "One of iso_url or iso_urls must be specified" ∷ [], one_url c)
        | first ∷ urls ↦ iso_checksum first (with_extension (one_url c))
      ]

-- `HTTPConfig`
pub record HttpConfig : Type 0 where
  pub http_dir : String
  pub http_content : Map String
  pub http_port_min : ℤ
  pub http_port_max : ℤ
  pub http_address : String
  pub http_interface : String

abbrev or_port : ℕ → ℤ → ℤ
or_port n (pos zero) = pos n
or_port n z = z

abbrev pub less : ℤ → ℤ → Bool
less (pos n) (pos m) = ltb n m
less (pos n) (negsuc m) = false
less (negsuc n) (pos m) = true
less (negsuc n) (negsuc m) = ltb m n

abbrev http_defaults : HttpConfig → HttpConfig
http_defaults c = record c {
  http_port_min = or_port 8000 c.http_port_min;
  http_port_max = or_port 9000 c.http_port_max;
  http_address = if str_eq c.http_address "" then "0.0.0.0" else c.http_address;
}

-- `HTTPConfig.Prepare`
unfoldable pub prepare_http : HttpConfig → List String × HttpConfig
prepare_http c =
    let d = http_defaults c in
    (
      fail_if (not (str_eq c.http_interface "") && not (str_eq c.http_address ""))
            "either http_interface or http_bind_address can be specified"
          ++ (fail_if (less d.http_port_max d.http_port_min)
                "http_port_min must be less than http_port_max"
              ++ fail_if (not (is_nil c.http_content) && not (str_eq c.http_dir ""))
                  "http_content cannot be used in conjunction with http_dir. Consider using the file function to load file in memory and serve them with http_content: https://www.packer.io/docs/templates/hcl_templates/functions/file/file"),
      d,
    )

-- `strings.ContainsAny(path, "*?[")`
abbrev pub is_pattern : List ℕ → Bool
is_pattern [] = false
is_pattern (c ∷ cs) = (c == 42 || (c == 63 || c == 91)) || is_pattern cs

-- Paths on a disk: `filepath.Glob` with the paths it finds and its error, and the error of `os.Stat`.
module _ (glob : List ℕ → List (List ℕ) × Option String) (stat : List ℕ → Option String) where
  abbrev path_error : List ℕ → Option String
  path_error path = if is_pattern path then (glob path).1 else stat path

  abbrev bad : String → List ℕ → Option String → List String
  bad kind path none = []
  bad kind path (some e) = join kind (join " '" (join (text path) (join "': " e))) ∷ []

  unfoldable pub floppy_errors : String → List (List ℕ) → List String
  floppy_errors kind [] = []
  floppy_errors kind (path ∷ paths) = bad kind path (path_error path) ++ floppy_errors kind paths

  -- `FloppyConfig.Prepare`, of the files and the directories.
  unfoldable pub prepare_floppy : List (List ℕ) → List (List ℕ) → List String
  prepare_floppy files directories =
      floppy_errors "Bad Floppy disk file" files
      ++ floppy_errors "Bad Floppy disk directory" directories

  -- `CDConfig.Prepare`: the errors, and the files with those that patterns stand for.
  unfoldable pub prepare_cd : List (List ℕ) → List String × List (List ℕ)
  prepare_cd [] = ([], [])
  prepare_cd (path ∷ paths) =
      let rest = prepare_cd paths in
      (
        bad "Bad CD disk file" path (path_error path) ++ rest.0,
        (if is_pattern path then (glob path).0 else path ∷ []) ++ rest.1,
      )
