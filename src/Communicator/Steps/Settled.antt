-- ===== src/Communicator/Steps/Settled.antt =====
-- What the steps that wait for a connection leave in the bag.
use packer_plugin_sdk.Prelude.{
  failed, got, ℕ, ◌≡◌, refl, ◌∙◌, ◌⊎◌, inl, inr, Bool, true, false, some, List, [], ◌∷◌, String, ℤ,
  is_positive, arith, Bool-cases, str_eq_refl,
}
use packer_plugin_sdk.Multistep.StateBag.{Value, StateBag}
use packer_plugin_sdk.Multistep.Step.{action_continue, action_halt}
use packer_plugin_sdk.CommonSteps.Ui.{Ui}
use packer_plugin_sdk.Communicator.Steps.{
  WaitEvent, finished, timeout, interrupted, elapsed, Ran, acted, still, ssh_run,
}

abbrev pub is_interrupted : {S : Type 0} → List (WaitEvent S) → Bool
is_interrupted [] = false
is_interrupted (interrupted ∷ es) = true
is_interrupted (_ ∷ es) = is_interrupted es

module _ {S : Type 0} (bag : StateBag S) (ui : Ui S bag) where
  -- A step that continues has put a communicator in the bag; one that halts has put an error in it,
  -- or its context was done.
  abbrev pub Settled : List (WaitEvent S) → Ran S → Type 0
  Settled es (acted action_continue s) =
      (comm : ℕ) × (bag.get_ok "communicator" s ≡ some (Value.other comm))
  Settled es (acted action_halt s) =
      (is_interrupted es ≡ true) ⊎ ((e : String) × (bag.get_ok "error" s ≡ some (Value.error e)))
  Settled es (still s) = Unit

  has_put : (k : String) (v : Value) (s : S) → bag.get_ok k (bag.put k v s) ≡ some v
  has_put k v s = ground (arith, bag.get_ok-put k k v s, str_eq_refl k)

  -- `StepConnectSSH.Run` is settled, whatever it meets.
  pub ssh_run-Settled :
      (limit : ℤ) (es : List (WaitEvent S)) (s : S) → Settled es (ssh_run bag ui limit es s)
  unfolding ssh_run
  ssh_run-Settled limit [] s = tt
  ssh_run-Settled limit (finished (got comm) ∷ es) s = (comm, has_put _ _ _)
  ssh_run-Settled limit (finished (failed e) ∷ es) s = inr (e, has_put _ _ _)
  ssh_run-Settled limit (timeout ∷ es) s = elim (Bool-cases (is_positive limit)) [
    | inl h ↦ rw h (inr (_, ui.get_ok-error _ _ _ ∙ has_put _ _ _))
    | inr h ↦ rw h (ssh_run-Settled limit es s)
  ]
  ssh_run-Settled limit (interrupted ∷ es) s = inl refl
  ssh_run-Settled limit (elapsed f ∷ es) s = ssh_run-Settled limit es (f s)

  -- Some seconds with what other goroutines do in them, and then an event.
  abbrev pub in_time : List (S → S) → WaitEvent S → List (WaitEvent S)
  in_time [] e = e ∷ []
  in_time (f ∷ fs) e = elapsed f ∷ in_time fs e
