-- ===== src/ShellLocal/Tests.antt =====
-- The settings of shell-local, and runs, at concrete inputs.
use packer_plugin_sdk.Prelude.{
  got, ◌≡◌, refl, ◌↔◌, true, false, none, String, List, [], ◌∷◌, pos, codes, elem, All, str_eq,
  text,
}
use packer_plugin_sdk.ShellLocal.Config.{
  Config, Machine, supported_syslist, is_variable, set_defaults, take_command, take_script,
  take_sources, bad_scripts, bad_variables, invalid_os, split_drive, convert_to_linux_path,
  with_pathing, finish, validate,
}
use packer_plugin_sdk.ShellLocal.Config.Accepts.{one_source, script_files, validate_ok_iff}
use packer_plugin_sdk.ShellLocal.Run.{Shell, Build, run}
use packer_plugin_sdk.ShellLocal.Run.OnlyOn.{run-only_on}

abbrev linux : Machine
linux = record {
  goos = "linux";
  stat = λ path. none;
  abs = λ path. got path;
  to_lower = λ path. path;
}

abbrev hello : Config
hello = record {
  inline = none;
  script = codes "hello.sh";
  scripts = [];
  valid_exit_codes = [];
  vars = codes "A=1" ∷ [];
  env = [];
  env_var_format = "";
  command = "";
  execute_command = [];
  inline_shebang = "";
  only_on = "plan9" ∷ [];
  tempfile_extension = codes ".sh";
  use_linux_pathing = false;
}

validate_ok_iff_example : ((validate linux hello).0 ≡ []) ↔ (
    (one_source hello ≡ true)
    × All (λ path. linux.stat path ≡ none) (script_files hello)
    × All (λ os. elem os supported_syslist ≡ false) hello.only_on
    × All (λ kv. is_variable kv ≡ true) hello.vars)
validate_ok_iff_example = validate_ok_iff linux hello refl

-- Each step notes itself.
abbrev Log : Type 0
Log = List String

abbrev shell : Shell Log
shell = record {
  say = λ m s. m ∷ s;
  temp_file = λ s. (got (codes "/tmp/packer"), "made" ∷ s);
  write = λ path t s. (none, t ∷ s);
  rename = λ old new s. text new ∷ s;
  remove = λ path s. "removed" ∷ s;
  execute = λ words s. (none, pos 0, "executed" ∷ s);
  render = λ vars t. got t;
  format = λ fmt k v. fmt;
  sort = λ l. l;
  escape = λ t. t;
  show_code = λ code allowed. "bad exit code";
}

abbrev build : Build
build = record { build_name = "b"; builder_type = "null"; generated_data = [] }

accepted : (validate linux hello).0 ≡ []
unfolding validate with_pathing finish set_defaults take_sources take_command take_script
    bad_scripts bad_variables invalid_os str_eq
accepted = refl

run-only_on_example :
    run shell build linux (validate linux hello).1 []
    ≡ (true, none, "Skipping shell-local due to runtime OS" ∷ [])
unfolding str_eq
run-only_on_example = run-only_on shell build linux hello [] refl refl accepted

-- The documented use of `only_on` is refused.
linux_refused :
    (validate linux (record hello { only_on = "linux" ∷ [] })).0
    ≡ "Invalid OS specified in only_on: 'linux'\nSupported OS names: darwin, freebsd, linux, openbsd, solaris, windows"
      ∷ []
unfolding validate with_pathing finish set_defaults take_sources take_command take_script
    bad_scripts bad_variables invalid_os str_eq
linux_refused = refl

-- C:\a becomes /mnt/C/a where the case is left alone.
on_a_drive : convert_to_linux_path linux (b'C' ∷ b':' ∷ 92 ∷ b'a' ∷ []) ≡ got (codes "/mnt/C/a")
unfolding convert_to_linux_path split_drive
on_a_drive = refl
