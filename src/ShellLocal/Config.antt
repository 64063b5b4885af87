-- ===== src/ShellLocal/Config.antt =====
-- shell-local/config.go: the settings of shell-local, their defaults and their validation.
pub mod Accepts
use packer_plugin_sdk.Prelude.{
  Result, failed, got, ℕ, Bool, true, false, not, ◌&&◌, ◌||◌, Option, none, some, List, [], ◌∷◌,
  ◌++◌, map, String, if◌then◌else◌, ℤ, join, ◌==◌, str_eq, elem, is_nil, is_some, text, codes, Map,
}

-- `Config` with the `shell.Provisioner` in it. `inline` is none where the slice is nil. Paths,
-- variables and the extension are the code points of their texts.
pub record Config : Type 0 where
  pub inline : Option (List String)
  pub script : List ℕ
  pub scripts : List (List ℕ)
  pub valid_exit_codes : List ℤ
  pub vars : List (List ℕ)
  pub env : Map String
  pub env_var_format : String
  pub command : String
  pub execute_command : List String
  pub inline_shebang : String
  pub only_on : List String
  pub tempfile_extension : List ℕ
  pub use_linux_pathing : Bool

-- `runtime.GOOS`, `os.Stat` with its error, `filepath.Abs`, and `strings.ToLower`.
pub record Machine : Type 0 where
  pub goos : String
  pub stat : List ℕ → Option String
  pub abs : List ℕ → Result (List ℕ)
  pub to_lower : List ℕ → List ℕ

abbrev pub is_windows : Machine → Bool
is_windows m = str_eq m.goos "windows"

abbrev pub or_commands : List String → List String → List String
or_commands d c = if is_nil c then d else c

-- The defaults that `Validate` sets first.
unfoldable pub set_defaults : Machine → Config → Config
set_defaults m c =
    if is_windows m
    then record c {
      execute_command =
          or_commands ("cmd" ∷ "/V" ∷ "/C" ∷ "{{.Vars}}" ∷ "call" ∷ "{{.Script}}" ∷ [])
            c.execute_command;
      tempfile_extension =
          if is_nil c.tempfile_extension then codes ".cmd" else c.tempfile_extension;
    }
    else record c {
      inline_shebang = if str_eq c.inline_shebang "" then "/bin/sh -e" else c.inline_shebang;
      execute_command =
          or_commands ("/bin/sh" ∷ "-c" ∷ "{{.Vars}} {{.Script}}" ∷ []) c.execute_command;
    }

abbrev pub items : Option (List String) → List String
items none = []
items (some l) = l

abbrev pub fail_if : Bool → String → List String
fail_if b e = if b then e ∷ [] else []

abbrev pub too_many_options : String
too_many_options =
    "You may only specify one of the following options: Command, Inline, Script or Scripts. Please consolidate these options in your config."

abbrev pub no_command : Config → Bool
no_command c = str_eq c.command ""

-- `config.Command`, which becomes the inline script where it stands alone.
unfoldable pub take_command : Config → List String × Config
take_command c =
    if no_command c
    then ([], c)
    else if not (is_nil (items c.inline)) || not (is_nil c.scripts) || not (is_nil c.script)
    then (too_many_options ∷ [], c)
    else ([], record c { inline = some (c.command ∷ []) })

-- `config.Script`, which becomes the list of scripts.
unfoldable pub take_script : Config → List String × Config
take_script c =
    if is_nil c.script
    then ([], c)
    else if not (is_nil c.scripts) || not (is_nil (items c.inline))
    then (too_many_options ∷ [], c)
    else ([], record c { scripts = c.script ∷ [] })

unfoldable pub bad_scripts : Machine → List (List ℕ) → List String
bad_scripts m [] = []
bad_scripts m (path ∷ paths) =
    (elim (m.stat path) [
      | none ↦ []
      | some e ↦ join "Bad script '" (join (text path) (join "': " e)) ∷ []
    ])
    ++ bad_scripts m paths

abbrev pub supported_syslist : List String
supported_syslist = "darwin" ∷ "freebsd" ∷ "linux" ∷ "openbsd" ∷ "solaris" ∷ "windows" ∷ []

-- The error of `only_on`, for the first name that is in the list of supported systems.
unfoldable pub invalid_os : List String → Option String
invalid_os [] = none
invalid_os (os ∷ oses) =
    let rest = invalid_os oses in
    if elem os supported_syslist
    then some (
        join "Invalid OS specified in only_on: '"
          (join os "'\nSupported OS names: darwin, freebsd, linux, openbsd, solaris, windows"))
    else rest

-- `strings.Replace(p, "\\", "/", -1)`
abbrev slashes : List ℕ → List ℕ
slashes = map (λ c. if c == 92 then 47 else c)

-- `strings.SplitN(p, ":/", 2)`: none if the separator is not in the path.
unfoldable pub split_drive : List ℕ → Option (List ℕ × List ℕ)
split_drive [] = none
split_drive (c ∷ []) = none
split_drive (c ∷ d ∷ cs) =
    let rest = split_drive (d ∷ cs) in
    if c == b':' && d == b'/'
    then some ([], cs)
    else elim rest [ none ↦ none | some p ↦ some (c ∷ p.0, p.1) ]

unfoldable pub convert_to_linux_path : Machine → List ℕ → Result (List ℕ)
convert_to_linux_path m path = elim (split_drive (slashes path)) [
  | none ↦ failed (
      join
        "There was an error splitting your absolute path; expected to find a drive following the format ':/' but did not: absolute path: "
        (text (slashes path)))
  | some p ↦ got (codes "/mnt/" ++ (m.to_lower p.0 ++ (b'/' ∷ p.1)))
]

unfoldable pub linux_path : Machine → List ℕ → Result (List ℕ)
linux_path m script = elim (m.abs script) [
  | failed e ↦ failed (join "Error converting " (join (text script) (join " to absolute path: " e)))
  | got path ↦ convert_to_linux_path m path
]

-- The paths in place of the scripts, up to the first error.
unfoldable pub linux_paths : Machine → List (List ℕ) → Option String × List (List ℕ)
linux_paths m [] = (none, [])
linux_paths m (script ∷ scripts) =
    let rest = linux_paths m scripts in
    elim (linux_path m script) [
      | failed e ↦ (some e, script ∷ scripts)
      | got path ↦ (rest.0, path ∷ rest.1)
    ]

-- `strings.SplitN(kv, "=", 2)` has two parts, and the first is not empty.
abbrev has_equals : List ℕ → Bool
has_equals [] = false
has_equals (c ∷ cs) = c == b'=' || has_equals cs

abbrev pub is_variable : List ℕ → Bool
is_variable [] = false
is_variable (c ∷ cs) = not (c == b'=') && has_equals cs

unfoldable pub bad_variables : List (List ℕ) → List String
bad_variables [] = []
bad_variables (kv ∷ kvs) =
    fail_if (not (is_variable kv))
      (join "Environment variable not in format 'key=value': " (text kv))
    ++ bad_variables kvs

-- `strings.TrimPrefix(e, ".")`
abbrev trim_dot : List ℕ → List ℕ
trim_dot [] = []
trim_dot (c ∷ cs) = if c == b'.' then cs else c ∷ cs

-- From `EnvVarFormat` on, with the errors so far.
unfoldable pub finish : Machine → List String → Config → List String × Config
finish m errs c = (
  errs ++ bad_variables c.vars,
  record c {
    env_var_format =
        if str_eq c.env_var_format ""
        then (if is_windows m && not c.use_linux_pathing then "set %s=%s && " else "%s='%s' ")
        else c.env_var_format;
    tempfile_extension = trim_dot c.tempfile_extension;
  },
)

abbrev pub no_inline_on_linux : String
no_inline_on_linux =
    "Packer is unable to use the Command and Inline features with the Windows Linux Subsystem. Please use the Script or Scripts options instead"

-- From `UseLinuxPathing` on. An error of a path is returned alone.
unfoldable pub with_pathing : Machine → List String → Config → List String × Config
with_pathing m errs c =
    if not c.use_linux_pathing
    then finish m errs c
    else (let (result, paths) = linux_paths m c.scripts in
        let c' = record c { scripts = paths } in
        elim result [
          | some e ↦ (e ∷ [], c')
          | none ↦ finish m (errs ++ fail_if (not (is_nil (items c.inline))) no_inline_on_linux) c'
        ])

-- The errors of the four ways to say what is run, and the settings that they leave.
unfoldable pub take_sources : Config → List String × Config
take_sources c =
    let missing = no_command c && is_nil (items c.inline) && is_nil c.scripts && is_nil c.script in
    let (commands, c') = take_command c in
    let (files, c'') = take_script c' in
    (
      fail_if missing "Command, Inline, Script and Scripts options cannot all be empty."
          ++ (commands
              ++ (files
                  ++ fail_if (not (is_nil c''.scripts) && is_some c''.inline) too_many_options)),
      c'',
    )

-- `Validate`: the errors, and the settings it leaves. The error of `only_on` is returned alone.
unfoldable pub validate : Machine → Config → List String × Config
validate m c =
    let (errs, c') = take_sources (set_defaults m c) in
    elim (invalid_os c'.only_on) [
      | some e ↦ (e ∷ [], c')
      | none ↦ with_pathing m (errs ++ bad_scripts m c'.scripts) c'
    ]
