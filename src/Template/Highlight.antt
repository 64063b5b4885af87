-- ===== src/Template/Highlight.antt =====
-- template/parse.go: the position of a syntax error in a template.
pub mod Caret
use packer_plugin_sdk.Prelude.{
  ℕ, zero, suc, ◌+◌, ◌-◌, ◌<◌, ◌≡◌, ◌≢◌, Bool, true, false, Option, none, some, List, [], ◌∷◌, ◌++◌,
  String, if◌then◌else◌, ltb, ◌==◌, length, arith,
}

-- The state of the loop of `highlightPosition`.
pub record Position : Type 0 where
  pub line : ℕ
  pub col : ℕ
  pub last_line : List ℕ
  pub this_line : List ℕ

abbrev pub read_byte : ℕ → Position → Position
read_byte b p =
    if b == 10
    then record { line = suc p.line; col = 1; last_line = p.this_line; this_line = [] }
    else record {
      line = p.line;
      col = suc p.col;
      last_line = p.last_line;
      this_line = p.this_line ++ b ∷ [];
    }

-- The loop: at most `pos` bytes are read.
unfoldable pub scan : ℕ → List ℕ → Position → Position
scan zero bytes p = p
scan (suc pos) [] p = p
scan (suc pos) (b ∷ bytes) p = scan pos bytes (read_byte b p)

abbrev pub start : Position
start = record { line = 1; col = 0; last_line = []; this_line = [] }

-- `strings.Repeat(" ", n)`
abbrev pub spaces : ℕ → List ℕ
spaces zero = []
spaces (suc n) = 32 ∷ spaces n

-- The lines of the highlight. `number` is `fmt.Sprintf("%5d: ", n)`.
unfoldable pub highlight : (ℕ → List ℕ) → Position → List (List ℕ)
highlight number p =
    let marked = (number p.line ++ p.this_line) ∷ (spaces (p.col + 5) ++ b'^' ∷ []) ∷ [] in
    if ltb 1 p.line then (number (p.line - 1) ++ p.last_line) ∷ marked else marked

unfoldable pub highlight_position : (ℕ → List ℕ) → List ℕ → ℕ → ℕ × ℕ × List (List ℕ)
highlight_position number bytes pos =
    let p = scan pos bytes start in (p.line, p.col, highlight number p)
