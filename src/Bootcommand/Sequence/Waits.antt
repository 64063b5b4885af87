-- ===== src/Bootcommand/Sequence/Waits.antt =====
-- The flush in front of a wait, and the one at the end.
use packer_plugin_sdk.Prelude.{
  ℕ, suc, ◌≡◌, refl, ap, ◌∙◌, ◌⊎◌, true, false, Option, none, some, List, [], ◌∷◌, String, ℤ,
  Bool-cases, inl, inr, is_nil,
}
use packer_plugin_sdk.Bootcommand.Driver.{BcDriver}
use packer_plugin_sdk.Bootcommand.Sequence.{
  Expression, wait, special, literal, Ctx, validate_all, do_expression, do_loop, do_sequence,
}

module _ {D : Type 0} (driver : BcDriver D) where
  -- The driver, but for the errors of its flushes.
  abbrev pub mute_flush : BcDriver D
  mute_flush = record driver { flush = λ s. (none, (driver.flush s).1) }

  module _ (ctx : Ctx) where
    do_expression-mute_flush :
        (i : ℕ) (exp : Expression) (s : D)
        → do_expression mute_flush ctx i exp s ≡ do_expression driver ctx i exp s
    unfolding do_expression
    do_expression-mute_flush i (wait d) s = refl
    do_expression-mute_flush i (special name action) s = refl
    do_expression-mute_flush i (literal r action) s = refl

    -- What the last flush makes of an end.
    abbrev pub Unheard : Option String × D → Option String × D → Type 0
    Unheard muted heard =
        (muted ≡ heard)
        ⊎ ((s : D) × (muted ≡ (none, (driver.flush s).1)) × (heard ≡ driver.flush s))

    stopped :
        (drv : BcDriver D) (i : ℕ) (exp : Expression) (exps : List Expression) (s : D)
        → ctx.done i ≡ true
        → do_loop drv ctx i (exp ∷ exps) s ≡ (some ctx.reason, s)
    unfolding do_loop
    stopped drv i exp exps s h = rw h refl

    went_on :
        (drv : BcDriver D) (i : ℕ) (exp : Expression) (exps : List Expression) (s : D)
        (result : Option String)
        → ctx.done i ≡ false
        → (do_expression drv ctx i exp s).0 ≡ result
        → do_loop drv ctx i (exp ∷ exps) s ≡ (elim result [
          | some e ↦ (some e, (do_expression drv ctx i exp s).1)
          | none ↦ do_loop drv ctx (suc i) exps (do_expression drv ctx i exp s).1
        ])
    unfolding do_loop
    went_on drv i exp exps s result h r = rw (h, ← r) refl

    followed :
        (i : ℕ) (exp : Expression) (exps : List Expression) (s : D) (result : Option String)
        → ctx.done i ≡ false
        → (do_expression driver ctx i exp s).0 ≡ result
        → ((t : D)
            → Unheard (do_loop mute_flush ctx (suc i) exps t) (do_loop driver ctx (suc i) exps t))
        → Unheard (do_loop mute_flush ctx i (exp ∷ exps) s) (do_loop driver ctx i (exp ∷ exps) s)
    followed i exp exps s (some e) h r k =
        let same = do_expression-mute_flush i exp s in
        rw
          (
            went_on mute_flush i exp exps s (some e) h (ap (λ p. p.0) same ∙ r),
            went_on driver i exp exps s (some e) h r,
          )
          (inl (ap (λ (p : Option String × D). (some e, p.1)) same))
    followed i exp exps s none h r k =
        let same = do_expression-mute_flush i exp s in
        rw
          (
            went_on mute_flush i exp exps s none h (ap (λ p. p.0) same ∙ r),
            went_on driver i exp exps s none h r,
            same,
          )
          (k (do_expression driver ctx i exp s).1)

    do_loop-Unheard :
        (i : ℕ) (exps : List Expression) (s : D)
        → Unheard (do_loop mute_flush ctx i exps s) (do_loop driver ctx i exps s)
    do_loop-Unheard i [] s = inr (s, unfold do_loop in refl, unfold do_loop in refl)
    do_loop-Unheard i (exp ∷ exps) s = elim (Bool-cases (ctx.done i)) [
      | inl h ↦ rw (stopped mute_flush i exp exps s h, stopped driver i exp exps s h) (inl refl)
      | inr h ↦
          followed i exp exps s (do_expression driver ctx i exp s).0 h refl
            (λ t. do_loop-Unheard (suc i) exps t)
    ]

    -- A command ends as with a driver whose flushes return no errors, or its result is the one of its
    -- last flush, so that no error of a flush in front of a wait is ever returned or ends the command.
    pub do_sequence-Unheard :
        (show : ℤ → String) (exps : List Expression) (s : D)
        → Unheard (do_sequence mute_flush ctx show exps s) (do_sequence driver ctx show exps s)
    unfolding do_sequence
    do_sequence-Unheard show exps s = elim (Bool-cases (is_nil (validate_all show exps))) [
      | inl h ↦ rw h (do_loop-Unheard 0 exps s)
      | inr h ↦ rw h (inl refl)
    ]
