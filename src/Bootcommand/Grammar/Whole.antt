-- ===== src/Bootcommand/Grammar/Whole.antt =====
-- Every command that is not empty is taken as a whole.
use packer_plugin_sdk.Prelude.{
  ℕ, zero, suc, ◌<◌, ◌≡◌, refl, sym, ap, List, [], ◌∷◌, String, length, arith,
}
use packer_plugin_sdk.Bootcommand.Sequence.{Expression}
use packer_plugin_sdk.Bootcommand.Peg.{
  Match, fails, matches, stuck, Parser, behind, repeat, choice, one_or_more, seq, action,
  any_matcher, not_expr, add_errors,
}
use packer_plugin_sdk.Bootcommand.Peg.Sound.{Splits, Advances, IsSound, IsProgress}
use packer_plugin_sdk.Bootcommand.Grammar.Rules.{
  wait_rule-IsSound, char_toggle-IsSound, special_rule-IsSound, expr_choice-IsSound,
  expr_choice-IsProgress, expr-IsSound,
}
use packer_plugin_sdk.Bootcommand.Grammar.{
  GoLib, literal_rule, wait_rule, char_toggle, special_rule, expr_choice, expr, eof, input,
}

module _ (lib : GoLib) where
  -- A choice that ends with a literal matches every input that is not empty.
  Takes : {A : Type 0} → Match A → Type 0
  Takes (fails errs) = ⊥
  Takes (matches a t rest errs) = Unit
  Takes stuck = ⊥

  choice-Takes :
      {A : Type 0} (p q : Parser A) (inp : List ℕ) (errs : List String)
      → IsSound p
      → ((errs' : List String) → Takes (q inp errs'))
      → Takes (choice p q inp errs)
  unfolding choice IsSound Takes
  choice-Takes {A} p q inp errs h k = go (p inp errs) (h inp errs)
    where
      go :
          (m : Match A)
          → Splits inp m
          → Takes (elim m as (λ x. Match A) [
            | fails errs' ↦ q inp errs'
            | matches a t rest errs' ↦ matches a t rest errs'
            | stuck ↦ stuck
          ])
      go (fails errs') s = k errs'
      go (matches a t rest errs') s = tt
      go stuck s = s

  expr_choice-Takes :
      (c : ℕ) (cs : List ℕ) (errs : List String) → Takes (expr_choice lib (c ∷ cs) errs)
  unfolding expr_choice literal_rule action any_matcher Takes
  expr_choice-Takes c cs errs =
      choice-Takes (wait_rule lib) _ (c ∷ cs) errs (wait_rule-IsSound lib) (λ errs1.
        choice-Takes (char_toggle lib) _ (c ∷ cs) errs1 (char_toggle-IsSound lib) (λ errs2.
          choice-Takes (special_rule lib) _ (c ∷ cs) errs2 (special_rule-IsSound lib)
            (λ errs3. tt)))

  -- A match of the whole input.
  IsWhole : {A : Type 0} → Match A → Type 0
  IsWhole (fails errs) = ⊥
  IsWhole (matches a t rest errs) = rest ≡ []
  IsWhole stuck = ⊥

  IsWhole-behind :
      {A B : Type 0} (t : List ℕ) (f : A → B) (m : Match A) → IsWhole m → IsWhole (behind t f m)
  unfolding IsWhole
  IsWhole-behind t f (fails errs) h = h
  IsWhole-behind t f (matches a u rest errs) h = h
  IsWhole-behind t f stuck h = h

  repeat-IsWhole :
      (n : ℕ) (inp : List ℕ) (errs : List String)
      → length inp < n
      → IsWhole (repeat n (expr_choice lib) inp errs)
  unfolding repeat IsWhole
  repeat-IsWhole zero inp errs f = absurd (omega (arith, f))
  repeat-IsWhole (suc n) [] errs f =
      go (expr_choice lib [] errs) (unfold IsSound in expr_choice-IsSound lib [] errs)
        (unfold IsProgress in expr_choice-IsProgress lib [] errs)
    where
      go :
          (m : Match Expression)
          → Splits [] m
          → Advances [] m
          → IsWhole (elim m as (λ x. Match (List Expression)) [
            | fails errs' ↦ matches [] [] [] errs'
            | matches a t rest errs' ↦
                behind t (λ as'. a ∷ as') (repeat n (expr_choice lib) rest errs')
            | stuck ↦ stuck
          ])
      go (fails errs') s d = refl
      go (matches a t rest errs') s d = absurd (omega (arith, d))
      go stuck s d = s
  repeat-IsWhole (suc n) (c ∷ cs) errs f =
      go (expr_choice lib (c ∷ cs) errs) (expr_choice-Takes c cs errs)
        (unfold IsProgress in expr_choice-IsProgress lib (c ∷ cs) errs) (repeat-IsWhole n)
    where
      go :
          (m : Match Expression)
          → Takes m
          → Advances (c ∷ cs) m
          → ((inp : List ℕ) (errs' : List String)
              → length inp < n
              → IsWhole (repeat n (expr_choice lib) inp errs'))
          → IsWhole (elim m as (λ x. Match (List Expression)) [
            | fails errs' ↦ matches [] [] (c ∷ cs) errs'
            | matches a t rest errs' ↦
                behind t (λ as'. a ∷ as') (repeat n (expr_choice lib) rest errs')
            | stuck ↦ stuck
          ])
      go (fails errs') s d ih = absurd (unfold Takes in s)
      go (matches a t rest errs') s d ih =
          IsWhole-behind t (λ as'. a ∷ as') _ (ih rest errs' (omega (arith, d, f)))
      go stuck s d ih = absurd (unfold Takes in s)

  expr-IsWhole : (c : ℕ) (cs : List ℕ) (errs : List String) → IsWhole (expr lib (c ∷ cs) errs)
  unfolding expr one_or_more IsWhole
  expr-IsWhole c cs errs = go (expr_choice lib (c ∷ cs) errs) (expr_choice-Takes c cs errs)
    where
      go :
          (m : Match Expression)
          → Takes m
          → IsWhole (elim m as (λ x. Match (List Expression)) [
            | fails errs' ↦ fails errs'
            | matches a t rest errs' ↦
                behind t (λ as'. a ∷ as') (repeat (suc (length rest)) (expr_choice lib) rest errs')
            | stuck ↦ stuck
          ])
      go (fails errs') s = absurd (unfold Takes in s)
      go (matches a t rest errs') s =
          IsWhole-behind t (λ as'. a ∷ as') _
            (repeat-IsWhole (suc (length rest)) rest errs' (omega arith))
      go stuck s = absurd (unfold Takes in s)

  -- A command that is not empty is matched to its end, whatever it holds: what is refused is refused
  -- for the errors of the actions alone, and no repetition goes on for ever.
  pub input-whole :
      (c : ℕ) (cs : List ℕ) (errs : List String)
      → (exps : List Expression) × (errs' : List String) × (input lib (c ∷ cs) errs
          ≡ matches exps (c ∷ cs) [] errs')
  unfolding input seq action eof not_expr any_matcher IsWhole
  input-whole c cs errs =
      go (expr lib (c ∷ cs) errs) (expr-IsWhole c cs errs)
        (unfold IsSound in expr-IsSound lib (c ∷ cs) errs)
    where
      go :
          (m : Match (List Expression))
          → IsWhole m
          → Splits (c ∷ cs) m
          → (exps : List Expression) × (errs' : List String) × (elim (elim m
                  as (λ x. Match (List Expression × List ℕ)) [
                    | fails errs1 ↦ fails errs1
                    | matches a t rest errs1 ↦ behind t (λ b. (a, b)) (eof lib rest errs1)
                    | stuck ↦ stuck
                  ])
                as (λ x. Match (List Expression)) [
                  | fails errs1 ↦ fails errs1
                  | matches a t rest errs1 ↦ matches a.0 t rest (add_errors errs1 [])
                  | stuck ↦ stuck
                ]
              ≡ matches exps (c ∷ cs) [] errs')
      go (fails errs') w s = absurd w
      go (matches a t [] errs') w s = (a, errs', ap (λ u. matches a u [] errs') (sym s))
      go (matches a t (x ∷ rest) errs') w s = cc
      go stuck w s = absurd w
