-- ===== src/Multistep/DebugRunner/Refines.antt =====
-- With pauses that leave the state alone, the debug runner does what the basic runner does.
use packer_plugin_sdk.Prelude.{
  ℕ, suc, ◌≡◌, refl, ap, ◌∙◌, Bool, true, false, Option, none, some, List, [], ◌∷◌, ◌||◌, String,
  arith, is_some, inl, inr, Bool-cases, Option-cases, if◌then◌else◌,
}
use packer_plugin_sdk.Multistep.StateBag.{Value, StateBag, state_cancelled, state_halted}
use packer_plugin_sdk.Multistep.Step.{StepAction, action_continue, action_halt, Step}
use packer_plugin_sdk.Multistep.BasicRunner.{
  idle, running, quiet, World, Left, Progress, next, leave, BasicRunner, returned, panicked,
  after_step, round, loop, clean_up, run,
}
use packer_plugin_sdk.Multistep.DebugRunner.{
  all_named, DebugPauseFn, debug_runner_of, DebugLocation, after_run, before_cleanup, debug_run,
  debug_outcome, debug_step_pause, debug_steps, shown_name,
}

module _ {S : Type 0} (bag : StateBag S) where
  abbrev Silent : DebugPauseFn S → Type 0
  Silent pause = (loc : DebugLocation) (name : String) (s : S) → pause loc name s ≡ s

  -- Two stacks with the same clean-ups.
  abbrev SameCleanup : List (Step S) → List (Step S) → Type 0
  SameCleanup ds es = (w : World S) → clean_up bag quiet ds w ≡ clean_up bag quiet es w

  record SameLeft (l m : Left S) : Type 0 where
    worlds : l.world ≡ m.world
    panics : l.panicking ≡ m.panicking
    cleanups : SameCleanup l.deferred m.deferred

  -- After a round that goes on, nothing has been cancelled.
  abbrev Live : Progress S → Type 0
  Live (next ds w) = (w.ctx_done ≡ false) × (is_some (bag.get_ok state_cancelled w.state) ≡ false)
  Live (leave l) = Unit

  round-Live :
      (i : ℕ) (step : Step S) (ds : List (Step S)) (w : World S)
      → Live (round bag quiet i running step ds w)
  unfolding round after_step
  round-Live i step ds w = ground arith

  abbrev Rel : Progress S → Progress S → Type 0
  Rel (next ds v) (next es w) = (v ≡ w) × SameCleanup ds es
  Rel (leave l) (leave m) = SameLeft l m
  Rel _ _ = ⊥

  SameCleanup-cons :
      (step : Step S) (ds es : List (Step S))
      → SameCleanup ds es
      → SameCleanup (step ∷ ds) (step ∷ es)
  unfolding clean_up
  SameCleanup-cons step ds es h w = h _

  after_step-Rel :
      (action : StepAction) (step : Step S) (ds es : List (Step S)) (w : World S)
      → SameCleanup ds es
      → Rel (after_step bag action (step ∷ ds) w) (after_step bag action (step ∷ es) w)
  unfolding after_step
  after_step-Rel action step ds es w h =
      elim (Bool-cases (is_some (bag.get_ok state_cancelled w.state))) [
        | inl set ↦
            rw set
              (record { worlds = refl; panics = refl; cleanups = SameCleanup-cons step ds es h })
        | inr unset ↦ rw unset (on_action action)
      ]
    where
      on_action :
          (a : StepAction)
          → Rel
              (elim a [
                | action_halt ↦ leave (record {
                  deferred = step ∷ ds;
                  world = record w { state = bag.put state_halted (Value.bool true) w.state };
                  panicking = false;
                })
                | action_continue ↦ next (step ∷ ds) w
              ])
              (elim a [
                | action_halt ↦ leave (record {
                  deferred = step ∷ es;
                  world = record w { state = bag.put state_halted (Value.bool true) w.state };
                  panicking = false;
                })
                | action_continue ↦ next (step ∷ es) w
              ])
      on_action action_halt = record {
        worlds = refl;
        panics = refl;
        cleanups = SameCleanup-cons step ds es h;
      }
      on_action action_continue = (refl, SameCleanup-cons step ds es h)

  round-Rel :
      (i j : ℕ) (step : Step S) (ds es : List (Step S)) (w : World S)
      → SameCleanup ds es
      → Rel (round bag quiet i running step ds w) (round bag quiet j running step es w)
  unfolding round
  round-Rel i j step ds es w h = elim (Bool-cases (w.ctx_done || false)) [
    | inl stop ↦ rw stop (record { worlds = refl; panics = refl; cleanups = h })
    | inr go ↦ rw go (elim (Option-cases (step.run w.ctx_done w.state).0) [
      | inl crash ↦ rw crash (record { worlds = refl; panics = refl; cleanups = h })
      | inr (action, e) ↦ rw e (after_step-Rel action step ds es _ h)
    ])
  ]

  -- The pause behind a live step changes nothing but the stack, by a clean-up that does nothing.
  pause_round :
      (pause : DebugPauseFn S) (name : String) (i : ℕ) (ds : List (Step S)) (w : World S)
      → Silent pause
      → w.ctx_done ≡ false
      → is_some (bag.get_ok state_cancelled w.state) ≡ false
      → round bag quiet i running (debug_step_pause name pause) ds w
        ≡ next (debug_step_pause name pause ∷ ds) w
  unfolding round after_step
  pause_round pause name i ds w silent live unset =
      rw live (rw (silent after_run name w.state) (rw unset))

  pause_cleanup :
      (pause : DebugPauseFn S) (name : String) (ds : List (Step S))
      → Silent pause
      → SameCleanup (debug_step_pause name pause ∷ ds) ds
  unfolding clean_up
  pause_cleanup pause name ds silent w = rw (silent before_cleanup name w.state)

  loop-SameLeft :
      (pause : DebugPauseFn S) (i j : ℕ) (steps : List (Option (Step S))) (ds es : List (Step S))
      (w : World S)
      → Silent pause
      → SameCleanup ds es
      → SameLeft
          (loop bag quiet i running (debug_steps pause steps) ds w)
          (loop bag quiet j running steps es w)
  unfolding loop debug_steps
  loop-SameLeft pause i j [] ds es w silent h = record {
    worlds = refl;
    panics = refl;
    cleanups = h;
  }
  loop-SameLeft pause i j (none ∷ steps) ds es w silent h =
      loop-SameLeft pause (suc (suc i)) (suc j) steps ds es w silent h
  loop-SameLeft pause i j (some step ∷ steps) ds es w silent h =
      same_rest (round bag quiet i running step ds w) (round bag quiet j running step es w)
        (round-Rel i j step ds es w h) (round-Live i step ds w)
        (λ ds' es' w' h'. loop-SameLeft pause (suc (suc i)) (suc j) steps ds' es' w' silent h')
    where
      paused : Step S
      paused = debug_step_pause (shown_name step) pause

      same_rest :
          (p q : Progress S)
          → Rel p q
          → Live p
          → ((ds' es' : List (Step S)) (w' : World S)
              → SameCleanup ds' es'
              → SameLeft
                  (loop bag quiet (suc (suc i)) running (debug_steps pause steps) ds' w')
                  (loop bag quiet (suc j) running steps es' w'))
          → SameLeft
              (elim p [
                | next ds' w' ↦
                    loop bag quiet (suc i) running (some paused ∷ debug_steps pause steps) ds' w'
                | leave l ↦ l
              ])
              (elim q [ next es' w' ↦ loop bag quiet (suc j) running steps es' w' | leave l ↦ l ])
      same_rest (next ds' v) (next es' w') (same, cleanups) live ih =
          rw (pause_round pause (shown_name step) (suc i) ds' v silent live.0 live.1, loop)
            (rw same (
              ih (paused ∷ ds') es' w'
                (λ x. pause_cleanup pause (shown_name step) ds' silent x ∙ cleanups x)))
      same_rest (next ds' v) (leave m) r live ih = absurd r
      same_rest (leave l) (next es' w') r live ih = absurd r
      same_rest (leave l) (leave m) r live ih = r

  finish_same :
      {Q : Type 0} (q : Q) (b c : BasicRunner S) (l m : Left S)
      → SameLeft l m
      → let v = clean_up bag quiet l.deferred l.world in
        let w = clean_up bag quiet m.deferred m.world in
        debug_outcome q (if l.panicking then panicked b v.state else returned b v.state)
        ≡ debug_outcome q (if m.panicking then panicked c w.state else returned c w.state)
  finish_same q b c l m same =
      let v = clean_up bag quiet l.deferred l.world in
      let w = clean_up bag quiet m.deferred m.world in
      let e : v ≡ w = same.cleanups l.world ∙ ap (clean_up bag quiet m.deferred) same.worlds in
      elim (Bool-cases m.panicking) [
        | inl crash ↦ rw (same.panics, crash, e)
        | inr fine ↦ rw (same.panics, fine, e)
      ]

  -- A debug runner that has not run yet, whose steps all have a name, with pauses that change nothing
  -- and no events beside the runner, ends as a basic runner of the same steps does, in the same state.
  pub debug_run-run :
      (terminal : String → S → S) (done : Bool) (pause : DebugPauseFn S)
      (steps : List (Option (Step S))) (s : S)
      → ((loc : DebugLocation) (name : String) (t : S) → pause loc name t ≡ t)
      → all_named steps ≡ true
      → let fresh = debug_runner_of steps pause in
        debug_run bag terminal quiet done fresh s
        ≡ debug_outcome
            (record fresh { has_runner = true })
            (run bag quiet done (record { steps = steps; run_state = idle; locked = false }) s)
  unfolding debug_run run
  debug_run-run terminal done pause steps s silent named = rw named (
      finish_same _ _ _ _ _ (
        loop-SameLeft pause 0 0 steps [] []
          (record { state = s; ctx_done = done; listening = true }) silent (λ w. refl)))
