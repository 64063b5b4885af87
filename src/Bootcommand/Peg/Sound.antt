-- ===== src/Bootcommand/Peg/Sound.antt =====
-- What a parser takes: a match splits the input, and no repetition runs out of fuel.
use packer_plugin_sdk.Prelude.{
  ℕ, zero, suc, ◌<◌, ◌≡◌, refl, sym, ap, ◌∙◌, Option, none, some, List, [], ◌∷◌, ◌++◌, append_assoc,
  String, length, arith, Bool-cases, inl, inr, leb, ◌&&◌, ◌==◌,
}
use packer_plugin_sdk.Bootcommand.Peg.{
  Match, fails, matches, stuck, Parser, behind, lit_matcher, any_matcher, char_class, not_expr,
  choice, zero_or_one, repeat, zero_or_more, one_or_more, seq, action, as_value, add_errors,
}

-- A match has taken the front of the input.
abbrev pub Splits : {A : Type 0} → List ℕ → Match A → Type 0
Splits inp (fails errs) = Unit
Splits inp (matches a t rest errs) = inp ≡ t ++ rest
Splits inp stuck = ⊥

-- A match has taken a front that is not empty.
abbrev pub Advances : {A : Type 0} → List ℕ → Match A → Type 0
Advances inp (fails errs) = Unit
Advances inp (matches a t rest errs) = length rest < length inp
Advances inp stuck = Unit

unfoldable pub IsSound : {A : Type 0} → Parser A → Type 0
IsSound p = (inp : List ℕ) (errs : List String) → Splits inp (p inp errs)

unfoldable pub IsProgress : {A : Type 0} → Parser A → Type 0
IsProgress p = (inp : List ℕ) (errs : List String) → Advances inp (p inp errs)

pub Splits-behind :
    {A B : Type 0} (t rest inp : List ℕ) (f : A → B) (m : Match A)
    → inp ≡ t ++ rest
    → Splits rest m
    → Splits inp (behind t f m)
Splits-behind t rest inp f (fails errs) e h = tt
Splits-behind t rest inp f (matches a u v errs) e h =
    e ∙ ap (λ x. t ++ x) h ∙ sym (append_assoc t u v)
Splits-behind t rest inp f stuck e h = h

pub lit_matcher-IsSound : (lower : ℕ → ℕ) (ws : List ℕ) → IsSound (lit_matcher lower ws)
unfolding IsSound lit_matcher
lit_matcher-IsSound lower [] inp errs = refl
lit_matcher-IsSound lower (w ∷ ws) [] errs = tt
lit_matcher-IsSound lower (w ∷ ws) (c ∷ cs) errs = elim (Bool-cases (lower c == w)) [
  | inl same ↦ rw same (
      Splits-behind (c ∷ []) cs (c ∷ cs) (λ t. c ∷ t) _ refl (lit_matcher-IsSound lower ws cs errs))
  | inr other ↦ rw other tt
]

pub any_matcher-IsSound : IsSound any_matcher
unfolding IsSound any_matcher
any_matcher-IsSound [] errs = tt
any_matcher-IsSound (c ∷ cs) errs = refl

pub char_class-IsSound : (lo hi : ℕ) → IsSound (char_class lo hi)
unfolding IsSound char_class
char_class-IsSound lo hi [] errs = tt
char_class-IsSound lo hi (c ∷ cs) errs = elim (Bool-cases (leb lo c && leb c hi)) [
  | inl inside ↦ rw inside refl
  | inr outside ↦ rw outside tt
]

module _ {A : Type 0} (p q : Parser A) where
  pub choice-IsSound : IsSound p → IsSound q → IsSound (choice p q)
  unfolding IsSound choice
  choice-IsSound h k inp errs = go (p inp errs) (h inp errs)
    where
      go :
          (m : Match A)
          → Splits inp m
          → Splits inp (elim m as (λ x. Match A) [
            | fails errs' ↦ q inp errs'
            | matches a t rest errs' ↦ matches a t rest errs'
            | stuck ↦ stuck
          ])
      go (fails errs') s = k inp errs'
      go (matches a t rest errs') s = s
      go stuck s = s

module _ {A : Type 0} (p : Parser A) where
  pub zero_or_one-IsSound : IsSound p → IsSound (zero_or_one p)
  unfolding IsSound zero_or_one
  zero_or_one-IsSound h inp errs = go (p inp errs) (h inp errs)
    where
      go :
          (m : Match A)
          → Splits inp m
          → Splits inp (elim m as (λ x. Match (Option A)) [
            | fails errs' ↦ matches none [] inp errs'
            | matches a t rest errs' ↦ matches (some a) t rest errs'
            | stuck ↦ stuck
          ])
      go (fails errs') s = refl
      go (matches a t rest errs') s = s
      go stuck s = s

  -- With more fuel than input left, a repetition of what takes something ends.
  pub repeat-IsSound :
      IsSound p
      → IsProgress p
      → (n : ℕ) (inp : List ℕ) (errs : List String) → length inp < n
      → Splits inp (repeat n p inp errs)
  unfolding IsSound IsProgress repeat
  repeat-IsSound h k zero inp errs f = absurd (omega (arith, f))
  repeat-IsSound h k (suc n) inp errs f =
      go (p inp errs) (h inp errs) (k inp errs) (repeat-IsSound h k n)
    where
      go :
          (m : Match A)
          → Splits inp m
          → Advances inp m
          → ((inp' : List ℕ) (errs' : List String)
              → length inp' < n
              → Splits inp' (repeat n p inp' errs'))
          → Splits inp (elim m as (λ x. Match (List A)) [
            | fails errs' ↦ matches [] [] inp errs'
            | matches a t rest errs' ↦ behind t (λ as'. a ∷ as') (repeat n p rest errs')
            | stuck ↦ stuck
          ])
      go (fails errs') s d ih = refl
      go (matches a t rest errs') s d ih =
          Splits-behind t rest inp (λ as'. a ∷ as') _ s (ih rest errs' (omega (arith, d, f)))
      go stuck s d ih = s

  pub zero_or_more-IsSound : IsSound p → IsProgress p → IsSound (zero_or_more p)
  unfolding IsSound zero_or_more
  zero_or_more-IsSound h k inp errs =
      repeat-IsSound (unfold IsSound in h) k (suc (length inp)) inp errs (omega arith)

  pub one_or_more-IsSound : IsSound p → IsProgress p → IsSound (one_or_more p)
  unfolding IsSound one_or_more
  one_or_more-IsSound h k inp errs = go (p inp errs) (h inp errs)
    where
      go :
          (m : Match A)
          → Splits inp m
          → Splits inp (elim m as (λ x. Match (List A)) [
            | fails errs' ↦ fails errs'
            | matches a t rest errs' ↦
                behind t (λ as'. a ∷ as') (repeat (suc (length rest)) p rest errs')
            | stuck ↦ stuck
          ])
      go (fails errs') s = tt
      go (matches a t rest errs') s =
          Splits-behind t rest inp (λ as'. a ∷ as') _ s
            (repeat-IsSound h k (suc (length rest)) rest errs' (omega arith))
      go stuck s = s

module _ {A B : Type 0} where
  pub seq-IsSound : (p : Parser A) (q : Parser B) → IsSound p → IsSound q → IsSound (seq p q)
  unfolding IsSound seq
  seq-IsSound p q h k inp errs = go (p inp errs) (h inp errs)
    where
      go :
          (m : Match A)
          → Splits inp m
          → Splits inp (elim m as (λ x. Match (A × B)) [
            | fails errs' ↦ fails errs'
            | matches a t rest errs' ↦ behind t (λ b. (a, b)) (q rest errs')
            | stuck ↦ stuck
          ])
      go (fails errs') s = tt
      go (matches a t rest errs') s = Splits-behind t rest inp (λ b. (a, b)) _ s (k rest errs')
      go stuck s = s

  pub action-IsSound :
      (run : List ℕ → A → B × List String) (p : Parser A) → IsSound p → IsSound (action run p)
  unfolding IsSound action
  action-IsSound run p h inp errs = go (p inp errs) (h inp errs)
    where
      go :
          (m : Match A)
          → Splits inp m
          → Splits inp (elim m as (λ x. Match B) [
            | fails errs' ↦ fails errs'
            | matches a t rest errs' ↦ matches (run t a).0 t rest (add_errors errs' (run t a).1)
            | stuck ↦ stuck
          ])
      go (fails errs') s = tt
      go (matches a t rest errs') s = s
      go stuck s = s

  pub as_value-IsSound : (f : A → B) (p : Parser A) → IsSound p → IsSound (as_value f p)
  unfolding IsSound
  as_value-IsSound f p h inp errs = Splits-behind [] inp inp f (p inp errs) refl (h inp errs)

pub not_expr-IsSound : {A : Type 0} (p : Parser A) → IsSound p → IsSound (not_expr p)
unfolding IsSound not_expr
not_expr-IsSound {A} p h inp errs = go (p inp errs) (h inp errs)
  where
    go :
        (m : Match A)
        → Splits inp m
        → Splits inp (elim m as (λ x. Match (List ℕ)) [
          | fails errs' ↦ matches [] [] inp errs'
          | matches a t rest errs' ↦ fails errs'
          | stuck ↦ stuck
        ])
    go (fails errs') s = refl
    go (matches a t rest errs') s = tt
    go stuck s = s
