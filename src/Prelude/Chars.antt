-- ===== src/Prelude/Chars.antt =====
-- The text of a list of code points; U+FFFD stands for a number that is no code point.
use Prim.Native.Nat.{ℕ}
use Prim.Native.Char.{Char, char, IsScalar}
use Prim.Native.String.{String}
use mathlib.Core.Path.{◌≡◌, refl}
use mathlib.Core.Bool.{Bool, true, false, ◌||◌, ◌&&◌}
use mathlib.Core.List.{List, [], ◌∷◌}
use native.Mathlib.Omega.{arith}
use packer_plugin_sdk.Prelude.Tests.{ltb}

abbrev pub is_scalar : ℕ → Bool
is_scalar n = ltb n 0xd800 || ltb 0xdfff n && ltb n 0x110000

pub is_scalar_sound : (n : ℕ) → is_scalar n ≡ true → IsScalar n
is_scalar_sound n h = ground arith

abbrev pub char_if : (n : ℕ) (b : Bool) → (b ≡ true → IsScalar n) → Char
char_if n true h = char n (h refl)
char_if n false h = char 0xfffd tt

abbrev pub char_of : ℕ → Char
char_of n = char_if n (is_scalar n) (is_scalar_sound n)

-- `string(b)` of the UTF-8 of the code points.
unfoldable pub text : List ℕ → String
text [] = String.[]
text (c ∷ cs) = String.◌∷◌ (char_of c) (text cs)
