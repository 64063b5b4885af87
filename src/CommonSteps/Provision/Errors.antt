-- ===== src/CommonSteps/Provision/Errors.antt =====
-- The error that provisioning and its clean-up leave in the bag.
use packer_plugin_sdk.Prelude.{
  ◌≡◌, refl, ◌∙◌, ◌⊎◌, inl, inr, true, false, none, some, List, [], ◌∷◌, String, join, arith,
  Bool-cases, str_eq, str_eq_refl, All, Map,
}
use packer_plugin_sdk.Multistep.StateBag.{Value, StateBag, is_set, state_cancelled}
use packer_plugin_sdk.Multistep.Step.{action_continue, action_halt}
use packer_plugin_sdk.CommonSteps.Ui.{Ui}
use packer_plugin_sdk.CommonSteps.Provision.{
  HookValues, HookEvent, ended, interrupted, second_over, changed, Hooked, acted, panicked, still,
  populate_provision_hook_data, hook_failed, await_hook, with_hook, run_with_hook, has_hook_and_ui,
  provision_cleanup,
}

module _ {S V : Type 0} (bag : StateBag S) (values : HookValues V) (ui : Ui S bag)
    (launch : String → Map V → S → S) where
  abbrev pub Quiet : (S → S) → Type 0
  Quiet f = (t : S) → bag.get_ok "error" (f t) ≡ bag.get_ok "error" t

  -- No other goroutine writes to the error.
  abbrev pub KeepsError : HookEvent S → Type 0
  KeepsError (changed f) = Quiet f
  KeepsError _ = Unit

  abbrev pub Holds : String → S → Type 0
  Holds e t = bag.get_ok "error" t ≡ some (Value.error e)

  -- The first error is still in the bag, in the text of the second one if there is one.
  abbrev pub Kept : Type 0 → String → Hooked S → Type 0
  Kept P original (acted action_continue t) = Holds original t
  Kept P original (acted action_halt t) =
      (Holds original t)
      ⊎ ((e : String) × Holds
            (join "Cleanup failed: " (join e (join ". Original Provisioning error: " original))) t)
  Kept P original (panicked t) = P
  Kept P original (still t) = Holds original t

  hook_failed-Kept :
      (P : Type 0) (original e : String) (s : S)
      → Holds original s
      → Kept P original (hook_failed bag values ui launch true e s)
  unfolding hook_failed
  hook_failed-Kept P original e s h =
      rw (h, Kept)
        (inr (
          e,
          ground (
            arith,
            bag.get_ok-put "error" "error"
                (Value.error (
                  join "Cleanup failed: "
                    (join e (join ". Original Provisioning error: " original))))
                s,
            str_eq_refl "error",
          ),
        ))

  await_hook-Kept :
      (P : Type 0) (original : String) (es : List (HookEvent S)) (s : S)
      → All KeepsError es
      → Holds original s
      → Kept P original (await_hook bag values ui launch true es s)
  unfolding await_hook
  await_hook-Kept P original [] s k h = h
  await_hook-Kept P original (ended none ∷ es) s k h = h
  await_hook-Kept P original (ended (some e) ∷ es) s k h = hook_failed-Kept P original e s h
  await_hook-Kept P original (interrupted ∷ es) s k h = await_hook-Kept P original es s k.1 h
  await_hook-Kept P original (second_over ∷ es) s k h =
      elim (Bool-cases (is_set bag state_cancelled s)) [
        | inl c ↦ rw c (inl h)
        | inr c ↦ rw c (await_hook-Kept P original es s k.1 h)
      ]
  await_hook-Kept P original (changed f ∷ es) s k h =
      await_hook-Kept P original es (f s) k.1 (k.0 s ∙ h)

  with_hook-Kept :
      (original : String) (es : List (HookEvent S)) (s : S)
      → ((name : String) (d : Map V) → Quiet (launch name d))
      → All KeepsError es
      → Holds original s
      → Kept
          (populate_provision_hook_data bag values s ≡ none)
          original
          (with_hook bag values ui launch true es s)
  unfolding with_hook str_eq
  with_hook-Kept original es s quiet k h =
      elim (populate_provision_hook_data bag values s)
        as (λ r. Kept (r ≡ none) original (elim r [
          | none ↦ panicked s
          | some d ↦ await_hook bag values ui launch true es (
              launch "packer_cleanup_provision" d (
                ui.say
                  "Provisioning step had errors: Running the cleanup provisioner, if present..."
                  (bag.put "generated_data" (values.to_value d) s)))
        ])) [
          | none ↦ refl
          | some d ↦
              await_hook-Kept _ original es _ k (
                quiet _ _ _ ∙ ui.get_ok-say _ _ _ ∙ bag.get_ok-put "generated_data" "error" _ s ∙ h)
        ]

  -- A panic for one reason is one for either.
  Kept-weaken :
      (P Q : Type 0) (original : String) (r : Hooked S)
      → (P → Q)
      → Kept P original r
      → Kept Q original r
  Kept-weaken P Q original (acted action_continue t) f h = h
  Kept-weaken P Q original (acted action_halt t) f h = h
  Kept-weaken P Q original (panicked t) f h = f h
  Kept-weaken P Q original (still t) f h = h

  run_with_hook-hooked :
      (es : List (HookEvent S)) (s : S)
      → has_hook_and_ui bag values s ≡ true
      → run_with_hook bag values ui launch true es s ≡ with_hook bag values ui launch true es s
  unfolding run_with_hook
  run_with_hook-hooked es s h = rw h refl

  run_with_hook-unhooked :
      (es : List (HookEvent S)) (s : S)
      → has_hook_and_ui bag values s ≡ false
      → run_with_hook bag values ui launch true es s ≡ panicked s
  unfolding run_with_hook
  run_with_hook-unhooked es s h = rw h refl

  -- If starting the hook and the other goroutines leave the error in the bag alone: a clean-up with an
  -- error in the bag does not lose it. That error is still there, or it is part of the error of a
  -- clean-up that failed; and there is no panic unless the bag has no hook or no user interface, or the
  -- data cannot be made.
  pub provision_cleanup-Kept :
      (original : String) (es : List (HookEvent S)) (s : S)
      → ((name : String) (d : Map V) → Quiet (launch name d))
      → All KeepsError es
      → Holds original s
      → Kept
          ((has_hook_and_ui bag values s ≡ false)
            ⊎ (populate_provision_hook_data bag values s ≡ none))
          original
          (provision_cleanup bag values ui launch es s)
  unfolding provision_cleanup
  provision_cleanup-Kept original es s quiet k h =
      rw h (elim (Bool-cases (has_hook_and_ui bag values s)) [
        | inl there ↦ rw (run_with_hook-hooked es s there) (
            Kept-weaken (populate_provision_hook_data bag values s ≡ none) _ original
              (with_hook bag values ui launch true es s) (λ p. inr p)
              (with_hook-Kept original es s quiet k h))
        | inr absent ↦ rw (run_with_hook-unhooked es s absent) (inl absent)
      ])
