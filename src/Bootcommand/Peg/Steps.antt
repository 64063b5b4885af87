-- ===== src/Bootcommand/Peg/Steps.antt =====
-- One step of each kind of parser, by the outcome of its part.
use packer_plugin_sdk.Prelude.{
  ℕ, suc, ◌≡◌, refl, false, none, some, List, [], ◌∷◌, String, length, ◌==◌,
}
use packer_plugin_sdk.Bootcommand.Peg.{
  fails, matches, Parser, behind, lit_matcher, choice, zero_or_one, repeat, one_or_more, seq,
  action, add_errors,
}

pub lit_matcher-other :
    (lower : ℕ → ℕ) (w : ℕ) (ws : List ℕ) (c : ℕ) (cs : List ℕ) (errs : List String)
    → (lower c == w) ≡ false
    → lit_matcher lower (w ∷ ws) (c ∷ cs) errs ≡ fails errs
unfolding lit_matcher
lit_matcher-other lower w ws c cs errs h = rw (h, lit_matcher) refl

module _ {A : Type 0} (p : Parser A) (inp : List ℕ) (errs : List String) where
  pub choice-fails :
      {errs' : List String} (q : Parser A)
      → p inp errs ≡ fails errs'
      → choice p q inp errs ≡ q inp errs'
  unfolding choice
  choice-fails q e = rw (e, choice) refl

  pub choice-matches :
      {errs' : List String} {a : A} {t rest : List ℕ} (q : Parser A)
      → p inp errs ≡ matches a t rest errs'
      → choice p q inp errs ≡ matches a t rest errs'
  unfolding choice
  choice-matches q e = rw (e, choice) refl

  pub zero_or_one-fails :
      {errs' : List String}
      → p inp errs ≡ fails errs'
      → zero_or_one p inp errs ≡ matches none [] inp errs'
  unfolding zero_or_one
  zero_or_one-fails e = rw (e, zero_or_one) refl

  pub zero_or_one-matches :
      {errs' : List String} {a : A} {t rest : List ℕ}
      → p inp errs ≡ matches a t rest errs'
      → zero_or_one p inp errs ≡ matches (some a) t rest errs'
  unfolding zero_or_one
  zero_or_one-matches e = rw (e, zero_or_one) refl

  pub repeat-fails :
      {errs' : List String} (n : ℕ)
      → p inp errs ≡ fails errs'
      → repeat (suc n) p inp errs ≡ matches [] [] inp errs'
  unfolding repeat
  repeat-fails n e = rw (e, repeat) refl

  pub repeat-matches :
      {errs' : List String} {a : A} {t rest : List ℕ} (n : ℕ)
      → p inp errs ≡ matches a t rest errs'
      → repeat (suc n) p inp errs ≡ behind t (λ as'. a ∷ as') (repeat n p rest errs')
  unfolding repeat
  repeat-matches n e = rw (e, repeat) refl

  pub one_or_more-fails :
      {errs' : List String} → p inp errs ≡ fails errs' → one_or_more p inp errs ≡ fails errs'
  unfolding one_or_more
  one_or_more-fails e = rw (e, one_or_more) refl

  pub one_or_more-matches :
      {errs' : List String} {a : A} {t rest : List ℕ}
      → p inp errs ≡ matches a t rest errs'
      → one_or_more p inp errs ≡ behind t (λ as'. a ∷ as') (repeat (suc (length rest)) p rest errs')
  unfolding one_or_more
  one_or_more-matches e = rw (e, one_or_more) refl

module _ {A B : Type 0} (p : Parser A) (inp : List ℕ) (errs : List String) where
  pub seq-fails :
      {errs' : List String} (q : Parser B)
      → p inp errs ≡ fails errs'
      → seq p q inp errs ≡ fails errs'
  unfolding seq
  seq-fails q e = rw (e, seq) refl

  pub seq-matches :
      {errs' : List String} {a : A} {t rest : List ℕ} (q : Parser B)
      → p inp errs ≡ matches a t rest errs'
      → seq p q inp errs ≡ behind t (λ b. (a, b)) (q rest errs')
  unfolding seq
  seq-matches q e = rw (e, seq) refl

  pub action-fails :
      {errs' : List String} (run : List ℕ → A → B × List String)
      → p inp errs ≡ fails errs'
      → action run p inp errs ≡ fails errs'
  unfolding action
  action-fails run e = rw (e, action) refl

  pub action-matches :
      {errs' : List String} {a : A} {t rest : List ℕ} (run : List ℕ → A → B × List String)
      → p inp errs ≡ matches a t rest errs'
      → action run p inp errs ≡ matches (run t a).0 t rest (add_errors errs' (run t a).1)
  unfolding action
  action-matches run e = rw (e, action) refl
