-- ===== src/Prelude/Text.antt =====
-- Code points of a text, and the hexadecimal digits of a byte.
use Prim.Native.Nat.{ℕ, suc, ◌/◌, ◌%◌}
use Prim.Native.Char.{code}
use Prim.Native.String.{String, ◌++◌}
use mathlib.Core.Option.{Option, none, some}
use mathlib.Core.List.{List, [], ◌∷◌}
use packer_plugin_sdk.Prelude.Tests.{◌==◌, if◌then◌else◌}

abbrev pub codes : String → List ℕ
codes String.[] = []
codes (String.◌∷◌ c s) = code c ∷ codes s

-- The place of a code point in a text that starts at `i`.
abbrev pub index_from : ℕ → ℕ → List ℕ → Option ℕ
index_from i c [] = none
index_from i c (d ∷ ds) = let rest = index_from (suc i) c ds in if d == c then some i else rest

abbrev pub hex_digit : ℕ → String
hex_digit n =
    if n == 0
    then "0"
    else if n == 1
    then "1"
    else if n == 2
    then "2"
    else if n == 3
    then "3"
    else if n == 4
    then "4"
    else if n == 5
    then "5"
    else if n == 6
    then "6"
    else if n == 7
    then "7"
    else if n == 8
    then "8"
    else if n == 9
    then "9"
    else if n == 10
    then "a"
    else if n == 11
    then "b"
    else if n == 12
    then "c"
    else if n == 13
    then "d"
    else if n == 14
    then "e"
    else "f"

-- `fmt.Sprintf("%02x", b)` of a byte.
unfoldable pub hex02 : ℕ → String
hex02 n = hex_digit (n / 16) ++ hex_digit (n % 16)
