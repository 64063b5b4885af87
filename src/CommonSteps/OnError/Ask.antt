-- ===== src/CommonSteps/OnError/Ask.antt =====
-- `askStep.Run`: its retries end, and what it returns is what the wrapped step's last attempt returned.
use packer_plugin_sdk.Prelude.{
  join, ℕ, zero, suc, ◌<◌, ◌≡◌, ◌≢◌, Bool, true, Option, none, some, List, [], ◌∷◌, arith, inl, inr,
  ◌⊎◌, Option-cases, length,
}
use packer_plugin_sdk.Multistep.StateBag.{Value, StateBag, state_cancelled}
use packer_plugin_sdk.Multistep.Step.{StepAction, action_halt, Step}
use packer_plugin_sdk.CommonSteps.Ui.{Ui, Format}
use packer_plugin_sdk.CommonSteps.OnError.{
  PromptEvent, line, tick, interrupt, Console, AskResponse, ask_retry, ask_wait, ask, ask_run,
  show_error,
}

module _ {S : Type 0} {bag : StateBag S} (ui : Ui S bag) (fmt : Format) where
  -- A retry takes a line of the input.
  ask_wait-retry :
      (es : List PromptEvent) (done : Bool) (s : S)
      → (ask_wait ui fmt es done s).0 ≡ ask_retry
      → length (ask_wait ui fmt es done s).2.1 < length es
  unfolding ask_wait
  ask_wait-retry [] done s h = cc
  ask_wait-retry (line l ∷ es) done s h =
      ground (arith, ask_wait-retry es done (ui.say (join "Incorrect input: " (fmt.line l)) s))
  ask_wait-retry (tick ∷ es) done s h = ground (arith, ask_wait-retry es done s)
  ask_wait-retry (interrupt ∷ es) done s h =
      ground (arith, ask_wait-retry es true (bag.put state_cancelled (Value.bool true) s))

  -- What `ask` answers to a halted attempt at `s`.
  abbrev asked : Step S → Bool → S → List PromptEvent → AskResponse × Bool × Console S
  asked step done s es = ask ui fmt step.step_name done (show_error ui fmt s, es)

  asked-retry :
      (step : Step S) (done : Bool) (s : S) (es : List PromptEvent)
      → (asked step done s es).0 ≡ ask_retry
      → length (asked step done s es).2.1 < length es
  unfolding ask
  asked-retry step done s es h = ask_wait-retry es done _ h

  ask_run-ne-none :
      (fuel : ℕ) (step : Step S) (done : Bool) (p : Console S)
      → length p.1 < fuel
      → ask_run ui fmt fuel step done p ≢ none
  unfolding ask_run
  ask_run-ne-none zero step done p h = elim h [ ]
  ask_run-ne-none (suc fuel) step done p h =
      let s = (step.run done p.0).1 in
      let a = asked step done s p.1 in
      ground (arith, asked-retry step done s p.1, ask_run-ne-none fuel step a.1 a.2)

  -- With more fuel than there are prompt events the retry loop of askStep ends, and it has a
  -- result.
  pub ask_run_total :
      (fuel : ℕ) (step : Step S) (done : Bool) (p : Console S)
      → length p.1 < fuel
      → (r : Option StepAction × Console S) × (ask_run ui fmt fuel step done p ≡ some r)
  ask_run_total fuel step done p h = elim (Option-cases (ask_run ui fmt fuel step done p)) [
    | inl stuck ↦ absurd (ask_run-ne-none fuel step done p h stuck)
    | inr found ↦ found
  ]

  -- One turn of the loop: it ends with the action of this attempt, or it goes round again.
  ask_run_cases :
      (fuel : ℕ) (step : Step S) (done : Bool) (p q : Console S) (r : Option StepAction)
      → ask_run ui fmt (suc fuel) step done p ≡ some (r, q)
      → let a = asked step done (step.run done p.0).1 p.1 in
        (((step.run done p.0).0 ≡ r) × (r ≢ some action_halt → q.0 ≡ (step.run done p.0).1))
        ⊎ (ask_run ui fmt fuel step a.1 a.2 ≡ some (r, q))
  unfolding ask_run
  ask_run_cases fuel step done p q r h = ground arith

  -- If the retry loop ends, its result is the action of some attempt of the wrapped step, and
  -- unless that is a halt the state is the one that the attempt left.
  pub ask_run-attempt :
      (fuel : ℕ) (step : Step S) (done : Bool) (p q : Console S) (r : Option StepAction)
      → ask_run ui fmt fuel step done p ≡ some (r, q)
      → (done' : Bool) × (s : S) × ((step.run done' s).0 ≡ r)
        × (r ≢ some action_halt → q.0 ≡ (step.run done' s).1)
  unfolding ask_run
  ask_run-attempt zero step done p q r h = cc
  ask_run-attempt (suc fuel) step done p q r h =
      let s = (step.run done p.0).1 in
      let a = asked step done s p.1 in
      elim (ask_run_cases fuel step done p q r h) [
        | inl (same, kept) ↦ (done, p.0, same, kept)
        | inr again ↦ ask_run-attempt fuel step a.1 a.2 q r again
      ]
