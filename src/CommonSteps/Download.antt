-- ===== src/CommonSteps/Download.antt =====
-- multistep/commonsteps/step_download.go: the step that downloads a file from the first source that
-- answers, and packer/cache.go: its place in the cache.
pub mod Retrieved
pub mod Shared
mod Tests
use packer_plugin_sdk.Prelude.{
  Result, failed, got, ℕ, suc, Bool, true, false, not, ◌&&◌, ◌||◌, Option, none, some, List, [],
  ◌∷◌, ◌++◌, String, if◌then◌else◌, join, ◌==◌, str_eq, is_nil, is_some, text, codes,
}
use packer_plugin_sdk.Multistep.StateBag.{Value, StateBag}
use packer_plugin_sdk.Multistep.Step.{StepAction, action_continue, action_halt}
use packer_plugin_sdk.CommonSteps.Ui.{Ui}

-- `StepDownload`. Paths and sources are the code points of their texts.
pub record StepDownload : Type 0 where
  pub checksum : String
  pub description : String
  pub result_key : String
  pub target_path : List ℕ
  pub url : List (List ℕ)
  pub extension : List ℕ

-- Addresses as net/url has them, paths as path/filepath has them, SHA-1 in hexadecimal digits, and the
-- machine with its environment.
pub record UrlLib (Url : Type 0) : Type 0 where
  pub goos : String
  pub parse : List ℕ → Result Url
  pub checksum : Url → String
  pub set_checksum : String → Url → Url
  pub show : Url → List ℕ
  pub scheme : Url → List ℕ
  pub path : Url → List ℕ
  pub to_slash : List ℕ → List ℕ
  pub to_lower : List ℕ → List ℕ
  pub clean : List ℕ → List ℕ
  pub ext : List ℕ → List ℕ
  pub path_join : List ℕ → List ℕ → List ℕ
  pub abs : List ℕ → Result (List ℕ)
  pub sha1_hex : List ℕ → List ℕ
  pub default_cache_dir : List ℕ
  pub packer_cache_dir : List ℕ

-- What `Get` of the client answers: the path of the file, or an error, which may be of the checksum.
pub data Got : Type 0 where
  downloaded : List ℕ → Got
  checksum_error other_error : String → Got

-- What the download acts on: files, their locks, and the client with its path and its source.
pub record Files (S : Type 0) : Type 0 where
  pub exists : List ℕ → S → Bool
  pub remove : List ℕ → S → Option String × S
  pub lock : List ℕ → S → S
  pub unlock : List ℕ → S → S
  pub get : List ℕ → List ℕ → S → Got × S

-- `strings.HasSuffix`
abbrev pub same_codes : List ℕ → List ℕ → Bool
same_codes [] [] = true
same_codes (x ∷ xs) (y ∷ ys) = x == y && same_codes xs ys
same_codes _ _ = false

unfoldable pub has_suffix : List ℕ → List ℕ → Bool
has_suffix suffix [] = is_nil suffix
has_suffix suffix (c ∷ cs) = same_codes suffix (c ∷ cs) || has_suffix suffix cs

-- A checksum is set, and is not "none".
abbrev pub is_checked : String → Bool
is_checked sum = not (str_eq sum "") && not (str_eq sum "none")

module _ {Url : Type 0} (lib : UrlLib Url) where
  -- A UNC path, which becomes an address of smb on Windows.
  abbrev pub promote : List ℕ → List ℕ
  promote (a ∷ b ∷ c ∷ cs) =
      if a == 92 && b == 92 && not (c == b'?')
      then codes "smb://" ++ lib.to_slash (c ∷ cs)
      else a ∷ b ∷ c ∷ cs
  promote source = source

  unfoldable pub parse_source_url : List ℕ → Result Url
  parse_source_url source = lib.parse (if str_eq lib.goos "windows" then promote source else source)

  -- `CachePath` of one name, but for the directory that it makes.
  unfoldable pub cache_path : List ℕ → Result (List ℕ)
  cache_path name = lib.abs (
      lib.path_join
        (if is_nil lib.packer_cache_dir then lib.default_cache_dir else lib.packer_cache_dir) name)

  abbrev pub with_extension : List ℕ → List ℕ → List ℕ
  with_extension extension name = if is_nil extension then name else name ++ (b'.' ∷ extension)

  -- The target for the hash of a checksum or of an address.
  unfoldable pub target : StepDownload → List ℕ → Result (List ℕ)
  target s sum =
      if is_nil s.target_path
      then (elim (cache_path (with_extension s.extension sum)) [
        | failed e ↦ failed (join "CachePath: " e)
        | got path ↦ got path
      ])
      else if is_nil (lib.ext s.target_path)
      then got (
          with_extension (if is_nil s.extension then codes "iso" else s.extension) (
            (if has_suffix (b'/' ∷ []) s.target_path
              then s.target_path
              else s.target_path ++ (b'/' ∷ []))
            ++ sum))
      else got s.target_path

  -- The checksum of the query, which the step keeps.
  abbrev pub keep_checksum : Url → StepDownload → StepDownload
  keep_checksum u s =
      if str_eq (lib.checksum u) "" then s else record s { checksum = lib.checksum u }

  abbrev pub checked_url : StepDownload → Url → Url
  checked_url s u = if is_checked s.checksum then lib.set_checksum s.checksum u else u

  abbrev pub sha_sum : StepDownload → Url → List ℕ
  sha_sum s u =
      lib.sha1_hex (if is_checked s.checksum then codes s.checksum else lib.show (checked_url s u))

  -- `UseSourceToFindCacheTarget`: the address and the target, and the step, whose checksum it sets.
  unfoldable pub use_source : List ℕ → StepDownload → Result (Url × List ℕ) × StepDownload
  use_source source s = elim (parse_source_url source) [
    | failed e ↦ (failed (join "url parse: " e), s)
    | got u ↦
        let s' = keep_checksum u s in
        elim (target s' (sha_sum s' u)) [
          | failed e ↦ (failed e, s')
          | got path ↦ (got (checked_url s' u, path), s')
        ]
  ]

  -- A path on this machine is cleaned, if there is such a file.
  unfoldable pub source_of : {S : Type 0} → Files S → Url → S → List ℕ
  source_of files u st =
      if (is_nil (lib.scheme u) || same_codes (lib.to_lower (lib.scheme u)) (codes "file"))
        && files.exists (lib.clean (lib.path u)) st
      then lib.clean (lib.show u)
      else lib.show u

  module _ {S : Type 0} {bag : StateBag S} (ui : Ui S bag) (files : Files S) where
    -- The answer of the client: the path or an error.
    unfoldable pub after_get : Url → List ℕ → Got × S → Result (List ℕ) × S
    after_get u path (downloaded dst, st) =
        (got dst, ui.say (join (text (lib.show u)) (join " => " (text dst))) st)
    after_get u path (checksum_error e, st) =
        let (result, st') =
          files.remove path (ui.say (join "Checksum did not match, removing " (text path)) st) in
        (
          failed e,
          elim result [
            | none ↦ st'
            | some e' ↦
                ui.error (join "Failed to remove cache file. Please remove manually: " (text path))
                  st'
          ],
        )
    after_get u path (other_error e, st) = (failed e, ui.say (join "Download failed " e) st)

    unfoldable pub download : List ℕ → StepDownload → S → Result (List ℕ) × StepDownload × S
    download source s st =
        let (found, s') = use_source source s in
        elim found [
          | failed e ↦ (failed e, s', st)
          | got p ↦
              let lock_file = p.1 ++ codes ".lock" in
              let locked = files.lock lock_file st in
              let said = ui.say (join "Trying " (text (lib.show p.0))) locked in
              let (result, st') =
                after_get p.0 p.1 (files.get p.1 (source_of files p.0 locked) said) in
              (result, s', files.unlock lock_file st')
        ]

    -- One source of the loop of `Run`; an OVF is used where it is.
    unfoldable pub retrieve : List ℕ → StepDownload → S → Result (List ℕ) × StepDownload × S
    retrieve source s st =
        let said = ui.say (join "Trying " (text source)) st in
        if str_eq s.description "OVF/OVA" && has_suffix (codes ".ovf") source
        then (got source, s, ui.say "Using ovf inplace" said)
        else download source s said

    -- `held` is a text as an `interface{}`, `show_errors` prints a list of errors, and `done i` is whether
    -- the context is done before the source of that number.
    module _ (held : List ℕ → Value) (show_errors : List String → String) (done : ℕ → Bool) where
      unfoldable pub keep : List ℕ → List ℕ → StepDownload → S → StepAction × StepDownload × S
      keep source dst s st = (
        action_continue,
        s,
        bag.put "SourceImageURL" (held source) (bag.put s.result_key (held dst) st),
      )

      -- The loop of `Run`, with the errors so far.
      unfoldable pub try_sources :
          ℕ → List (List ℕ) → List String → StepDownload → S → StepAction × StepDownload × S
      try_sources i [] errs s st =
          let e = join "error downloading " (join s.description (join ": " (show_errors errs))) in
          (action_halt, s, ui.error e (bag.put "error" (Value.error e) st))
      try_sources i (source ∷ sources) errs s st =
          if done i
          then (
            action_halt,
            s,
            bag.put "error" (Value.error (join "Download cancelled: " (show_errors errs))) st,
          )
          else (let (result, s', st') = retrieve source s st in
              elim result [
                | failed e ↦ try_sources (suc i) sources (errs ++ (e ∷ [])) s' st'
                | got dst ↦ keep source dst s' st'
              ])

      -- `StepDownload.Run`
      unfoldable pub download_run : StepDownload → S → StepAction × StepDownload × S
      download_run s st =
          if is_nil s.url
          then (action_continue, s, st)
          else try_sources 0 s.url [] s (ui.say (join "Retrieving " s.description) st)
