-- ===== src/CommonSteps/Ui.antt =====
-- What multistep/commonsteps/multistep_runner.go asks of the user interface (packer/ui.go) and of
-- package fmt: messages, which leave the state bag alone, and the texts of values.
use packer_plugin_sdk.Prelude.{ℕ, ◌≡◌, List, String}
use packer_plugin_sdk.Multistep.StateBag.{Value, StateBag}

pub record Ui (S : Type 0) (bag : StateBag S) : Type 0 where
  pub error : String → S → S
  pub say : String → S → S
  pub get_ok-error : (k m : String) (s : S) → bag.get_ok k (error m s) ≡ bag.get_ok k s
  pub get_ok-say : (k m : String) (s : S) → bag.get_ok k (say m s) ≡ bag.get_ok k s

-- `%s` of a value, `%q` of a text, and `%#v` of a line.
pub record Format : Type 0 where
  pub value : Value → String
  pub quote : String → String
  pub line : List ℕ → String
