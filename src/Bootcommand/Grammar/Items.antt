-- ===== src/Bootcommand/Grammar/Items.antt =====
-- How boot commands are written: the items of a command, as text and as expressions.
use packer_plugin_sdk.Prelude.{
  ℕ, ◌*◌, ◌≡◌, true, false, ◌&&◌, leb, ◌==◌, List, [], ◌∷◌, ◌++◌, String, codes, elem, All, pos,
}
use packer_plugin_sdk.Bootcommand.Driver.{KeyAction, key_on, key_off, key_press}
use packer_plugin_sdk.Bootcommand.Sequence.{Expression, wait, special, literal}
use packer_plugin_sdk.Bootcommand.Specials.{special_keys}
use packer_plugin_sdk.Bootcommand.Grammar.{GoLib, to_int64, second}

-- A character, a character held or released, a special key, a pause of a second, and a pause of a
-- number of seconds, whose digits are given.
pub data Item : Type 0 where
  press hold release : ℕ → Item
  key : String → KeyAction → Item
  pause : Item
  pause_seconds : ℕ → List ℕ → Item

abbrev pub suffix : KeyAction → List ℕ
suffix key_on = codes "On>"
suffix key_off = codes "Off>"
suffix key_press = codes ">"

-- As it is written in front of `rest`.
abbrev pub written : Item → List ℕ → List ℕ
written (press c) rest = c ∷ rest
written (hold c) rest = b'<' ∷ c ∷ (suffix key_on ++ rest)
written (release c) rest = b'<' ∷ c ∷ (suffix key_off ++ rest)
written (key name a) rest = b'<' ∷ (codes name ++ (suffix a ++ rest))
written pause rest = codes "<wait>" ++ rest
written (pause_seconds d ds) rest = codes "<wait" ++ (d ∷ (ds ++ (b'>' ∷ rest)))

unfoldable pub written_all : List Item → List ℕ
written_all [] = []
written_all (item ∷ items) = written item (written_all items)

module _ (lib : GoLib) where
  abbrev pub meant : Item → Expression
  meant (press c) = literal c key_press
  meant (hold c) = literal c key_on
  meant (release c) = literal c key_off
  meant (key name a) = special name a
  meant pause = wait (pos second)
  meant (pause_seconds d ds) = wait (to_int64 ((lib.parse_int (d ∷ ds)).0 * second))

  abbrev pub IsDigit : ℕ → Type 0
  IsDigit d = (leb b'0' d && leb d b'9') ≡ true

  -- What can be written: a character is not the start of an expression, a key is in the grammar, and a
  -- number starts with no zero and is read with no error.
  abbrev pub IsWritable : Item → Type 0
  IsWritable (press c) = (c == b'<') ≡ false
  IsWritable (hold c) = Unit
  IsWritable (release c) = Unit
  IsWritable (key name a) = elem name special_keys ≡ true
  IsWritable pause = Unit
  IsWritable (pause_seconds d ds) =
      ((leb b'1' d && leb d b'9') ≡ true) × (All IsDigit ds) × ((lib.parse_int (d ∷ ds)).1 ≡ [])
