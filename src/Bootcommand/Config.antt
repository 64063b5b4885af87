-- ===== src/Bootcommand/Config.antt =====
-- bootcommand/config.go: the settings of boot commands.
pub mod Prepared
use packer_plugin_sdk.Prelude.{
  ℕ, zero, Bool, true, false, not, ◌&&◌, Option, none, some, List, [], ◌∷◌, ◌++◌, String,
  if◌then◌else◌, ℤ, pos, join, concat, is_nil, is_some,
}
use packer_plugin_sdk.Bootcommand.Sequence.{validate_all}
use packer_plugin_sdk.Bootcommand.Grammar.{
  GoLib, Parsed, parsed, refused, loops, generate_expression_sequence, second,
}

-- A command is the code points of its text; `none` is a nil slice.
pub record BootConfig : Type 0 where
  pub boot_group_interval : ℤ
  pub boot_wait : ℤ
  pub boot_command : Option (List (List ℕ))

pub record VncConfig : Type 0 where
  pub boot_config : BootConfig
  pub disable_vnc : Bool
  pub boot_key_interval : ℤ

-- `errList.Error`: the messages, one on a line.
abbrev pub error_list : List String → String
error_list [] = ""
error_list (e ∷ []) = e
error_list (e ∷ es) = join e (join "\n" (error_list es))

abbrev pub default_wait : ℤ → ℤ
default_wait (pos zero) = pos 10000000000
default_wait d = d

abbrev pub commands : Option (List (List ℕ)) → List (List ℕ)
commands none = []
commands (some cs) = cs

-- `FlatBootCommand`
abbrev pub flat_boot_command : BootConfig → List ℕ
flat_boot_command c = concat (commands c.boot_command)

module _ (lib : GoLib) (show : ℤ → String) where
  -- The errors of a command: of its parse, or of its expressions.
  unfoldable pub command_errors : List ℕ → List String
  command_errors command = elim (generate_expression_sequence lib command) [
    | parsed exps ↦ validate_all show exps
    | refused errs ↦ error_list errs ∷ []
    | loops ↦ []
  ]

  -- `BootConfig.Prepare`: the errors, and the settings with their defaults.
  unfoldable pub prepare : BootConfig → List String × BootConfig
  prepare c = (
    (if is_some c.boot_command then command_errors (flat_boot_command c) else []),
    record c { boot_wait = default_wait c.boot_wait },
  )

  -- `VNCConfig.Prepare`
  unfoldable pub prepare_vnc : VncConfig → List String × VncConfig
  unfolding prepare
  prepare_vnc c =
      let (errs, boot) = prepare c.boot_config in
      (
        (if not (is_nil (commands c.boot_config.boot_command)) && c.disable_vnc
              then "A boot command cannot be used when vnc is disabled." ∷ []
              else [])
            ++ errs,
        record c { boot_config = boot },
      )
