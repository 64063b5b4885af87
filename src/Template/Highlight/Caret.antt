-- ===== src/Template/Highlight/Caret.antt =====
-- The line, the column and the caret of a syntax error.
use packer_plugin_sdk.Prelude.{
  ℕ, zero, suc, ◌+◌, ◌≡◌, refl, true, List, [], ◌∷◌, if◌then◌else◌, ◌==◌, ltb, length,
  length-append, arith,
}
use packer_plugin_sdk.Template.Highlight.{Position, read_byte, scan, start, highlight_position}

-- The line breaks in the first bytes.
abbrev pub breaks : ℕ → List ℕ → ℕ
breaks zero bytes = 0
breaks (suc n) [] = 0
breaks (suc n) (b ∷ bytes) = if b == 10 then suc (breaks n bytes) else breaks n bytes

scan_line :
    (n : ℕ) (bytes : List ℕ) (p : Position) → (scan n bytes p).line ≡ p.line + breaks n bytes
unfolding scan
scan_line zero bytes p = omega arith
scan_line (suc n) [] p = omega arith
scan_line (suc n) (b ∷ bytes) p = ground (arith, scan_line n bytes (read_byte b p))

-- The column counts the bytes of the line, and one more on every line but the first.
abbrev pub offset : Position → ℕ
offset p = if p.line == 1 then 0 else 1

IsAt : Position → Type 0
IsAt p = (p.col ≡ length p.this_line + offset p) × (ltb 0 p.line ≡ true)

read_byte-IsAt : (b : ℕ) (p : Position) → IsAt p → IsAt (read_byte b p)
unfolding IsAt
read_byte-IsAt b p h = ground (arith, length-append p.this_line (b ∷ []))

scan-IsAt : (n : ℕ) (bytes : List ℕ) (p : Position) → IsAt p → IsAt (scan n bytes p)
unfolding scan
scan-IsAt zero bytes p h = h
scan-IsAt (suc n) [] p h = h
scan-IsAt (suc n) (b ∷ bytes) p h = scan-IsAt n bytes (read_byte b p) (read_byte-IsAt b p h)

-- The line is one more than the line breaks that were read. The column is the number of bytes of that
-- line that were read, and one more than that on every line but the first.
pub highlight_position_lem :
    (number : ℕ → List ℕ) (bytes : List ℕ) (n : ℕ)
    → let (line, col, text) = highlight_position number bytes n in
      (line ≡ suc (breaks n bytes))
      × (col ≡ length (scan n bytes start).this_line + (if breaks n bytes == 0 then 0 else 1))
unfolding highlight_position IsAt
highlight_position_lem number bytes n =
    ground (arith, scan_line n bytes start, scan-IsAt n bytes start (refl, refl))
