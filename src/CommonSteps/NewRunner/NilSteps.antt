-- ===== src/CommonSteps/NewRunner/NilSteps.antt =====
-- Nil steps, which the basic runner skips, under the wrappers of `newRunner`.
use packer_plugin_sdk.Prelude.{
  ℕ, ◌≡◌, refl, Bool, true, false, Option, none, some, String, List, [], ◌∷◌, ◌++◌, ◌||◌, map,
  map-append, ◌⊎◌, inl, inr, str_eq,
}
use packer_plugin_sdk.Multistep.StateBag.{StateBag, beside, is_set, state_cancelled, state_halted}
use packer_plugin_sdk.Multistep.Step.{Step}
use packer_plugin_sdk.Multistep.BasicRunner.{RunState, Env, World, loop}
use packer_plugin_sdk.Multistep.BasicRunner.Signals.{loop-cut, loop-cut_signals, panic-Cuts}
use packer_plugin_sdk.CommonSteps.Ui.{Ui, Format}
use packer_plugin_sdk.CommonSteps.OnError.{PromptEvent, Console, abort_step, ask_step}
use packer_plugin_sdk.CommonSteps.NewRunner.{lift, wrap_steps}

module _ {S : Type 0} {bag : StateBag S} (ui : Ui S bag) (fmt : Format) (env : Env) (i : ℕ)
    (st : RunState) (before after : List (Option (Step S))) (ds : List (Step (Console S)))
    (w : World (Console S)) where
  -- The loop is left in the same way whatever stands behind the nil step, by a panic or with the
  -- cancelled or the halted key in the bag.
  abbrev pub Cut : (List (Option (Step S)) → List (Option (Step (Console S)))) → Type 0
  Cut wrap =
      let l = loop (beside bag (List PromptEvent)) env i st (wrap (before ++ none ∷ after)) ds w in
      (l ≡ loop (beside bag (List PromptEvent)) env i st (wrap (before ++ none ∷ [])) ds w)
      × ((l.panicking
            || is_set (beside bag (List PromptEvent)) state_cancelled l.world.state
            || is_set (beside bag (List PromptEvent)) state_halted l.world.state)
          ≡ true)

  -- A wrapper whose nil step panics.
  wrapped-Cut :
      (f : Option (Step S) → Step (Console S))
      → ((done : Bool) (p : Console S) → ((f none).run done p).0 ≡ none)
      → Cut (map (λ step. some (f step)))
  wrapped-Cut f h =
      let g : Option (Step S) → Option (Step (Console S)) = λ step. some (f step) in
      let cuts = panic-Cuts (beside bag (List PromptEvent)) env st (f none) h in
      rw (map-append g before (none ∷ after), map-append g before (none ∷ []))
        (
          loop-cut (beside bag (List PromptEvent)) env i st (map g before) (map g after) (f none) ds
              w cuts,
          loop-cut_signals (beside bag (List PromptEvent)) env i st (map g before) (map g after)
              (f none) ds w cuts,
        )

  -- Under each of the settings abort, ask and run-cleanup-provisioner a nil step among the steps, which
  -- the basic runner alone would skip, ends the loop, whatever the other goroutines do: no step behind
  -- it has any effect, and the loop is left by a panic or with the cancelled or the halted key in the bag.
  pub wrap_steps-nil :
      (on_error : String)
      → (on_error ≡ "abort") ⊎ (on_error ≡ "ask") ⊎ (on_error ≡ "run-cleanup-provisioner")
      → Cut (wrap_steps ui fmt on_error)
  unfolding wrap_steps str_eq
  wrap_steps-nil on_error (inl h) =
      rw h (wrapped-Cut (λ step. lift ui fmt (abort_step ui fmt false step)) (λ done p. refl))
  wrap_steps-nil on_error (inr (inl h)) = rw h (wrapped-Cut (ask_step ui fmt) (λ done p. refl))
  wrap_steps-nil on_error (inr (inr h)) =
      rw h (wrapped-Cut (λ step. lift ui fmt (abort_step ui fmt true step)) (λ done p. refl))
