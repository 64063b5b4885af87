-- ===== src/Bootcommand/Peg.antt =====
-- bootcommand/boot_command.go: the machine that runs the grammar. A parser takes the code points in
-- front of it and the errors so far. An error stays when the parser backtracks. A match carries the text
-- that it took, which is `p.sliceFrom(start)`, and what is behind it.
pub mod Sound
pub mod Progress
pub mod Steps
use packer_plugin_sdk.Prelude.{
  ℕ, zero, suc, ◌+◌, Bool, true, false, ◌&&◌, Option, none, some, List, [], ◌∷◌, ◌++◌, String,
  if◌then◌else◌, ltb, leb, ◌==◌, length,
}

pub data Match (A : Type 0) : Type 0 where
  fails : List String → Match A
  matches : A → List ℕ → List ℕ → List String → Match A
  stuck : Match A

abbrev pub Parser : Type 0 → Type 0
Parser A = List ℕ → List String → Match A

-- `stuck` is the end of the fuel of a repetition.
module _ {A B : Type 0} where
  -- A match whose text starts further to the left.
  abbrev pub behind : List ℕ → (A → B) → Match A → Match B
  behind t f (fails errs) = fails errs
  behind t f (matches a u rest errs) = matches (f a) (t ++ u) rest errs
  behind t f stuck = stuck

-- `unicode.ToLower`, of which the grammar needs its values on ASCII; `high` gives the others.
abbrev pub to_lower : (ℕ → ℕ) → ℕ → ℕ
to_lower high c = if ltb c 128 then (if leb b'A' c && leb c b'Z' then c + 32 else c) else high c

-- `parseLitMatcher`. At the end of the input the next rune is U+FFFD, which no literal has.
unfoldable pub lit_matcher : (ℕ → ℕ) → List ℕ → Parser (List ℕ)
lit_matcher lower [] inp errs = matches [] [] inp errs
lit_matcher lower (w ∷ ws) [] errs = fails errs
lit_matcher lower (w ∷ ws) (c ∷ cs) errs =
    let rest = behind (c ∷ []) (λ t. c ∷ t) (lit_matcher lower ws cs errs) in
    if lower c == w then rest else fails errs

-- `parseAnyMatcher`
unfoldable pub any_matcher : Parser (List ℕ)
any_matcher [] errs = fails errs
any_matcher (c ∷ cs) errs = matches (c ∷ []) (c ∷ []) cs errs

-- `parseCharClassMatcher`, of one range.
unfoldable pub char_class : ℕ → ℕ → Parser (List ℕ)
char_class lo hi [] errs = fails errs
char_class lo hi (c ∷ cs) errs =
    if leb lo c && leb c hi then matches (c ∷ []) (c ∷ []) cs errs else fails errs

-- `parseNotExpr`
unfoldable pub not_expr : {A : Type 0} → Parser A → Parser (List ℕ)
not_expr p inp errs = elim (p inp errs) [
  | fails errs' ↦ matches [] [] inp errs'
  | matches a t rest errs' ↦ fails errs'
  | stuck ↦ stuck
]

module _ {A : Type 0} where
  -- `parseChoiceExpr`, of two alternatives.
  unfoldable pub choice : Parser A → Parser A → Parser A
  choice p q inp errs = elim (p inp errs) [
    | fails errs' ↦ q inp errs'
    | matches a t rest errs' ↦ matches a t rest errs'
    | stuck ↦ stuck
  ]

  -- `parseZeroOrOneExpr`
  unfoldable pub zero_or_one : Parser A → Parser (Option A)
  zero_or_one p inp errs = elim (p inp errs) [
    | fails errs' ↦ matches none [] inp errs'
    | matches a t rest errs' ↦ matches (some a) t rest errs'
    | stuck ↦ stuck
  ]

  -- The loop of a repetition. One that takes something at every turn has fuel enough in the length of
  -- the input and one more.
  unfoldable pub repeat : ℕ → Parser A → Parser (List A)
  repeat zero p inp errs = stuck
  repeat (suc n) p inp errs = elim (p inp errs) [
    | fails errs' ↦ matches [] [] inp errs'
    | matches a t rest errs' ↦ behind t (λ as'. a ∷ as') (repeat n p rest errs')
    | stuck ↦ stuck
  ]

  -- `parseZeroOrMoreExpr`
  unfoldable pub zero_or_more : Parser A → Parser (List A)
  zero_or_more p inp errs = repeat (suc (length inp)) p inp errs

  -- `parseOneOrMoreExpr`
  unfoldable pub one_or_more : Parser A → Parser (List A)
  one_or_more p inp errs = elim (p inp errs) [
    | fails errs' ↦ fails errs'
    | matches a t rest errs' ↦ behind t (λ as'. a ∷ as') (repeat (suc (length rest)) p rest errs')
    | stuck ↦ stuck
  ]

-- `addErr` for each error.
abbrev pub add_errors : List String → List String → List String
add_errors errs [] = errs
add_errors errs (e ∷ es) = errs ++ e ∷ es

module _ {A B : Type 0} where
  -- A value taken as one of another type, where `interface{}` holds several.
  abbrev pub as_value : (A → B) → Parser A → Parser B
  as_value f p inp errs = behind [] f (p inp errs)

  -- `parseSeqExpr`, of two parts.
  unfoldable pub seq : Parser A → Parser B → Parser (A × B)
  seq p q inp errs = elim (p inp errs) [
    | fails errs' ↦ fails errs'
    | matches a t rest errs' ↦ behind t (λ b. (a, b)) (q rest errs')
    | stuck ↦ stuck
  ]

  -- `parseActionExpr`: the action has the text and the value, and its error is kept.
  unfoldable pub action : (List ℕ → A → B × List String) → Parser A → Parser B
  action run p inp errs = elim (p inp errs) [
    | fails errs' ↦ fails errs'
    | matches a t rest errs' ↦ matches (run t a).0 t rest (add_errors errs' (run t a).1)
    | stuck ↦ stuck
  ]
