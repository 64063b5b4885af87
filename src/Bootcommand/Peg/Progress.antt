-- ===== src/Bootcommand/Peg/Progress.antt =====
-- Parsers whose matches take something.
use packer_plugin_sdk.Prelude.{
  ℕ, suc, ◌≤◌, ◌<◌, ◌≡◌, List, [], ◌∷◌, ◌++◌, String, length, length-append, arith, Bool-cases, inl,
  inr, leb, ◌&&◌, ◌==◌,
}
use packer_plugin_sdk.Bootcommand.Peg.{
  Match, fails, matches, stuck, Parser, behind, lit_matcher, any_matcher, char_class, choice,
  repeat, one_or_more, seq, action, as_value, add_errors,
}
use packer_plugin_sdk.Bootcommand.Peg.Sound.{
  Splits, Advances, IsSound, IsProgress, lit_matcher-IsSound, repeat-IsSound,
}

-- What stands behind a front is not longer.
length-le-rest : (inp t rest : List ℕ) → inp ≡ t ++ rest → length rest ≤ length inp
length-le-rest inp t rest e = rw e (omega (arith, length-append t rest))

Advances-behind :
    {A B : Type 0} (t rest inp : List ℕ) (f : A → B) (m : Match A)
    → length rest < length inp
    → Splits rest m
    → Advances inp (behind t f m)
Advances-behind t rest inp f (fails errs) d s = tt
Advances-behind t rest inp f (matches a u v errs) d s = omega (arith, d, length-le-rest rest u v s)
Advances-behind t rest inp f stuck d s = tt

pub lit_matcher-IsProgress :
    (lower : ℕ → ℕ) (w : ℕ) (ws : List ℕ) → IsProgress (lit_matcher lower (w ∷ ws))
unfolding IsProgress lit_matcher
lit_matcher-IsProgress lower w ws [] errs = tt
lit_matcher-IsProgress lower w ws (c ∷ cs) errs = elim (Bool-cases (lower c == w)) [
  | inl same ↦ rw same (
      Advances-behind (c ∷ []) cs (c ∷ cs) (λ t. c ∷ t) (lit_matcher lower ws cs errs) (omega arith)
        (unfold IsSound in lit_matcher-IsSound lower ws cs errs))
  | inr other ↦ rw other tt
]

pub any_matcher-IsProgress : IsProgress any_matcher
unfolding IsProgress any_matcher
any_matcher-IsProgress [] errs = tt
any_matcher-IsProgress (c ∷ cs) errs = omega arith

pub char_class-IsProgress : (lo hi : ℕ) → IsProgress (char_class lo hi)
unfolding IsProgress char_class
char_class-IsProgress lo hi [] errs = tt
char_class-IsProgress lo hi (c ∷ cs) errs = elim (Bool-cases (leb lo c && leb c hi)) [
  | inl inside ↦ rw inside (omega arith)
  | inr outside ↦ rw outside tt
]

pub choice-IsProgress :
    {A : Type 0} (p q : Parser A) → IsProgress p → IsProgress q → IsProgress (choice p q)
unfolding IsProgress choice
choice-IsProgress {A} p q h k inp errs = go (p inp errs) (h inp errs)
  where
    go :
        (m : Match A)
        → Advances inp m
        → Advances inp (elim m as (λ x. Match A) [
          | fails errs' ↦ q inp errs'
          | matches a t rest errs' ↦ matches a t rest errs'
          | stuck ↦ stuck
        ])
    go (fails errs') s = k inp errs'
    go (matches a t rest errs') s = s
    go stuck s = s

pub one_or_more-IsProgress :
    {A : Type 0} (p : Parser A) → IsSound p → IsProgress p → IsProgress (one_or_more p)
unfolding IsProgress one_or_more
one_or_more-IsProgress {A} p s h inp errs = go (p inp errs) (h inp errs)
  where
    go :
        (m : Match A)
        → Advances inp m
        → Advances inp (elim m as (λ x. Match (List A)) [
          | fails errs' ↦ fails errs'
          | matches a t rest errs' ↦
              behind t (λ as'. a ∷ as') (repeat (suc (length rest)) p rest errs')
          | stuck ↦ stuck
        ])
    go (fails errs') d = tt
    go (matches a t rest errs') d =
        Advances-behind t rest inp (λ as'. a ∷ as') (repeat (suc (length rest)) p rest errs') d
          (repeat-IsSound p s (unfold IsProgress in h) (suc (length rest)) rest errs' (omega arith))
    go stuck d = tt

module _ {A B : Type 0} where
  pub seq-IsProgress :
      (p : Parser A) (q : Parser B) → IsProgress p → IsSound q → IsProgress (seq p q)
  unfolding IsProgress seq
  seq-IsProgress p q h k inp errs = go (p inp errs) (h inp errs)
    where
      go :
          (m : Match A)
          → Advances inp m
          → Advances inp (elim m as (λ x. Match (A × B)) [
            | fails errs' ↦ fails errs'
            | matches a t rest errs' ↦ behind t (λ b. (a, b)) (q rest errs')
            | stuck ↦ stuck
          ])
      go (fails errs') d = tt
      go (matches a t rest errs') d =
          Advances-behind t rest inp (λ b. (a, b)) (q rest errs') d (unfold IsSound in k rest errs')
      go stuck d = tt

  -- Behind a part that may take nothing, the rest of a sequence has to take something.
  pub seq_second-IsProgress :
      (p : Parser A) (q : Parser B) → IsSound p → IsProgress q → IsProgress (seq p q)
  unfolding IsProgress seq
  seq_second-IsProgress p q h k inp errs = go (p inp errs) (unfold IsSound in h inp errs)
    where
      later :
          (a : A) (t rest : List ℕ) (m : Match B)
          → inp ≡ t ++ rest
          → Advances rest m
          → Advances {A = A × B} inp (behind t (λ b. (a, b)) m)
      later a t rest (fails errs') e d = tt
      later a t rest (matches b u v errs') e d = omega (arith, d, length-le-rest inp t rest e)
      later a t rest stuck e d = tt

      go :
          (m : Match A)
          → Splits inp m
          → Advances inp (elim m as (λ x. Match (A × B)) [
            | fails errs' ↦ fails errs'
            | matches a t rest errs' ↦ behind t (λ b. (a, b)) (q rest errs')
            | stuck ↦ stuck
          ])
      go (fails errs') s = tt
      go (matches a t rest errs') s = later a t rest (q rest errs') s (k rest errs')
      go stuck s = tt

  pub action-IsProgress :
      (run : List ℕ → A → B × List String) (p : Parser A) → IsProgress p → IsProgress (action run p)
  unfolding IsProgress action
  action-IsProgress run p h inp errs = go (p inp errs) (h inp errs)
    where
      go :
          (m : Match A)
          → Advances inp m
          → Advances inp (elim m as (λ x. Match B) [
            | fails errs' ↦ fails errs'
            | matches a t rest errs' ↦ matches (run t a).0 t rest (add_errors errs' (run t a).1)
            | stuck ↦ stuck
          ])
      go (fails errs') s = tt
      go (matches a t rest errs') s = s
      go stuck s = s

  pub as_value-IsProgress : (f : A → B) (p : Parser A) → IsProgress p → IsProgress (as_value f p)
  unfolding IsProgress
  as_value-IsProgress f p h inp errs = go (p inp errs) (h inp errs)
    where
      go : (m : Match A) → Advances inp m → Advances inp (behind [] f m)
      go (fails errs') s = tt
      go (matches a t rest errs') s = s
      go stuck s = s
