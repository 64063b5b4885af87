-- ===== src/Bootcommand/Driver.antt =====
-- bootcommand/driver.go and the key actions of bootcommand/boot_command_ast.go.
use packer_plugin_sdk.Prelude.{
  ℕ, Bool, true, false, Option, List, String, ◌||◌, codes, index_from, is_some,
}

pub data KeyAction : Type 0 where
  key_on key_off key_press : KeyAction

-- `action&(KeyOn|KeyPress) != 0` and `action&(KeyOff|KeyPress) != 0`
abbrev pub goes_down : KeyAction → Bool
goes_down key_off = false
goes_down _ = true

abbrev pub goes_up : KeyAction → Bool
goes_up key_on = false
goes_up _ = true

-- `BCDriver` over its own state `D`; an error is its text.
pub record BcDriver (D : Type 0) : Type 0 where
  pub send_key : ℕ → KeyAction → D → Option String × D
  pub send_special : String → KeyAction → D → Option String × D
  pub flush : D → Option String × D

abbrev pub shifted_chars : List ℕ
shifted_chars = codes "~!@#$%^&*()_+{}|:\"<>?"

-- Whether a key is typed with shift; `is_upper` is `unicode.IsUpper`.
abbrev pub key_shift : (ℕ → Bool) → ℕ → Bool
key_shift is_upper key = is_upper key || is_some (index_from 0 key shifted_chars)
