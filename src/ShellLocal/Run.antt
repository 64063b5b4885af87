-- ===== src/ShellLocal/Run.antt =====
-- shell-local/run.go, and shell/exit_code.go: how the scripts of shell-local are run.
pub mod OnlyOn
use packer_plugin_sdk.Prelude.{
  Result, failed, got, ℕ, Bool, true, false, not, ◌&&◌, Option, none, some, List, [], ◌∷◌, ◌++◌,
  String, if◌then◌else◌, ℤ, pos, join, ◌==◌, str_eq, elem, is_nil, text, codes, Map, lookup, insert,
}
use packer_plugin_sdk.ShellLocal.Config.{Config, Machine, items}

-- What the execution is done with: the messages; temporary files, which are made, written, renamed and
-- removed; the execution of a command, with its error and its exit status; templates, which may use the
-- variables and the script; the format of variables, sorting, and the replacement of single quotes.
pub record Shell (S : Type 0) : Type 0 where
  pub say : String → S → S
  pub temp_file : S → Result (List ℕ) × S
  pub write : List ℕ → String → S → Option String × S
  pub rename : List ℕ → List ℕ → S → S
  pub remove : List ℕ → S → S
  pub execute : List String → S → Option String × ℤ × S
  pub render : Map String → String → Result String
  pub format : String → String → String → String
  pub sort : List String → List String
  pub escape : String → String
  pub show_code : ℤ → List ℤ → String

-- The fields of `PackerConfig` that become variables, and the data of the builder.
pub record Build : Type 0 where
  pub build_name : String
  pub builder_type : String
  pub generated_data : Map String

abbrev pub same : ℤ → ℤ → Bool
same (pos n) (pos m) = n == m
same (ℤ.negsuc n) (ℤ.negsuc m) = n == m
same _ _ = false

abbrev elem_code : ℤ → List ℤ → Bool
elem_code c [] = false
elem_code c (v ∷ vs) = if same c v then true else elem_code c vs

-- `ValidExitCode`
unfoldable pub is_valid_exit_code : List ℤ → ℤ → Bool
is_valid_exit_code allowed code = elem_code code (if is_nil allowed then pos 0 ∷ [] else allowed)

-- A variable of the HTTP server, unless the builder has none.
abbrev http_variable : Map String → String → String → String → Map String → Map String
http_variable generated name key missing vars = elim (lookup key generated) [
  | none ↦ vars
  | some v ↦ if str_eq v missing then vars else insert name v vars
]

abbrev keys : Map String → List String
keys [] = []
keys ((k, v) ∷ m) = k ∷ keys m

module _ {S : Type 0} (shell : Shell S) (build : Build) where
  abbrev provided : Map String
  provided =
      http_variable build.generated_data "PACKER_HTTP_PORT" "PackerHTTPPort"
        "ERR_HTTP_PORT_NOT_IMPLEMENTED_BY_BUILDER"
        (http_variable build.generated_data "PACKER_HTTP_IP" "PackerHTTPIP"
          "ERR_HTTP_IP_NOT_IMPLEMENTED_BY_BUILDER"
          (http_variable build.generated_data "PACKER_HTTP_ADDR" "PackerHTTPAddr"
            "ERR_HTTP_ADDR_NOT_IMPLEMENTED_BY_BUILDER"
            (("PACKER_BUILD_NAME", build.build_name)
              ∷ ("PACKER_BUILDER_TYPE", build.builder_type)
              ∷ [])))

  -- The parts around the first equals sign; a text without one is refused by `Validate`.
  unfoldable pub key_value : List ℕ → List ℕ × List ℕ
  key_value [] = ([], [])
  key_value (c ∷ cs) =
      let rest = key_value cs in if c == b'=' then ([], cs) else (c ∷ rest.0, rest.1)

  unfoldable pub add_vars : List (List ℕ) → Map String → Result (Map String)
  add_vars [] vars = got vars
  add_vars (v ∷ vs) vars = elim (shell.render build.generated_data (text v)) [
    | failed e ↦ failed e
    | got rendered ↦
        let p = key_value (codes rendered) in
        add_vars vs (insert (text p.0) (shell.escape (text p.1)) vars)
  ]

  unfoldable pub add_env : Map String → Map String → Map String
  add_env [] vars = vars
  add_env ((k, v) ∷ env) vars = add_env env (insert k (shell.escape v) vars)

  unfoldable pub flatten : String → Map String → List String → String
  flatten fmt vars [] = ""
  flatten fmt vars (k ∷ ks) =
      join (elim (lookup k vars) [ none ↦ "" | some v ↦ shell.format fmt k v ])
        (flatten fmt vars ks)

  -- `createFlattenedEnvVars`
  unfoldable pub create_flattened_env_vars : Config → Result String
  create_flattened_env_vars c = elim (add_vars c.vars provided) [
    | failed e ↦ failed e
    | got vars ↦
        let all = add_env c.env vars in got (flatten c.env_var_format all (shell.sort (keys all)))
  ]

  unfoldable pub inline_lines : List String → Result String
  inline_lines [] = got ""
  inline_lines (command ∷ commands) = elim (shell.render build.generated_data command) [
    | failed e ↦ failed e
    | got line ↦ elim (inline_lines commands) [
      | failed e ↦ failed e
      | got rest ↦ got (join line (join "\n" rest))
    ]
  ]

  abbrev shebang : String → String
  shebang s = if str_eq s "" then "" else join "#!" (join s "\n")

  -- `createInlineScriptFile`, whose buffer is written by its flush.
  unfoldable pub create_inline_script_file : Config → S → Result (List ℕ) × S
  create_inline_script_file c s =
      let (file, s') = shell.temp_file s in
      elim file [
        | failed e ↦ (failed (join "Error preparing shell script: " e), s')
        | got path ↦ elim (inline_lines (items c.inline)) [
          | failed e ↦ (failed e, s')
          | got lines ↦
              let (result, s'') = shell.write path (join (shebang c.inline_shebang) lines) s' in
              elim result [
                | some e ↦ (failed (join "Error preparing shell script: " e), s'')
                | none ↦ (got path, s'')
              ]
        ]
      ]

  unfoldable pub interpolate_all : Map String → List String → Result (List String)
  interpolate_all vars [] = got []
  interpolate_all vars (cmd ∷ cmds) = elim (shell.render vars cmd) [
    | failed e ↦ failed (join "Error processing command: " e)
    | got word ↦ elim (interpolate_all vars cmds) [ failed e ↦ failed e | got ws ↦ got (word ∷ ws) ]
  ]

  -- `createInterpolatedCommands`
  abbrev pub create_interpolated_commands : Config → List ℕ → String → Result (List String)
  create_interpolated_commands c script vars =
      interpolate_all
        (insert "Command" (text script)
          (insert "Script" (text script) (insert "Vars" vars build.generated_data)))
        c.execute_command

  -- One script: the error, or none.
  unfoldable pub run_script : Machine → Config → String → List ℕ → S → Option String × S
  run_script m c vars script s = elim (m.abs script) [
    | failed e ↦ (some (join "Error executing script: \n" (join e "\n")), s)
    | got path ↦ elim (create_interpolated_commands c path vars) [
      | failed e ↦ (some e, s)
      | got words ↦
          let (result, code, s') =
            shell.execute words (shell.say (join "Running local shell script: " (text script)) s) in
          elim result [
            | some e ↦ (
              some (
                  join "Error executing script: "
                    (join (text path) "\n\nPlease see output above for more information.")),
              s',
            )
            | none ↦
                if is_valid_exit_code c.valid_exit_codes code
                then (none, s')
                else (some (shell.show_code code c.valid_exit_codes), s')
          ]
    ]
  ]

  unfoldable pub run_scripts : Machine → Config → String → List (List ℕ) → S → Option String × S
  run_scripts m c vars [] s = (none, s)
  run_scripts m c vars (script ∷ scripts) s =
      let (result, s') = run_script m c vars script s in
      elim result [ some e ↦ (some e, s') | none ↦ run_scripts m c vars scripts s' ]

  -- From the variables on.
  unfoldable pub run_files : Machine → Config → List (List ℕ) → S → Option String × S
  run_files m c scripts s = elim (create_flattened_env_vars c) [
    | failed e ↦ (some e, s)
    | got vars ↦ run_scripts m c vars scripts s
  ]

  -- The temporary script, which is renamed if it is to have an extension, and removed at the end.
  unfoldable pub run_inline : Machine → Config → S → Option String × S
  run_inline m c s =
      let (file, s') = create_inline_script_file c s in
      elim file [
        | failed e ↦ (some e, s')
        | got path ↦
            let named =
              (if is_nil c.tempfile_extension
                then path
                else path ++ (b'.' ∷ c.tempfile_extension)) in
            let renamed =
              (if is_nil c.tempfile_extension then s' else shell.rename path named s') in
            let (result, t) = run_files m c (named ∷ []) renamed in (result, shell.remove named t)
      ]

  -- `Run`: whether there is no error, the error, and the state.
  unfoldable pub run : Machine → Config → S → Bool × Option String × S
  run m c s =
      if not (is_nil c.only_on) && not (elem m.goos c.only_on)
      then (true, none, shell.say "Skipping shell-local due to runtime OS" s)
      else (let (result, s') =
            (if not (is_nil c.scripts) then run_files m c c.scripts s else elim c.inline [
              | none ↦ run_files m c [] s
              | some commands ↦ run_inline m c s
            ]) in
          elim result [ some e ↦ (false, some e, s') | none ↦ (true, none, s') ])
