-- ===== src/Multistep/BasicRunner/Signals.antt =====
-- What the bag says when the loop is left, and what a halting step and a done context cut off.
use packer_plugin_sdk.Prelude.{
  ℕ, suc, ◌≡◌, refl, sym, ◌∙◌, Bool, true, false, Option, none, some, List, [], ◌∷◌, ◌++◌, ◌||◌,
  arith, ◌⊎◌, inl, inr, Bool-cases, Option-cases,
}
use packer_plugin_sdk.Multistep.StateBag.{
  Value, StateBag, is_set, is_set-put, state_cancelled, state_halted,
}
use packer_plugin_sdk.Multistep.Step.{StepAction, action_continue, action_halt, Step}
use packer_plugin_sdk.Multistep.BasicRunner.{
  RunState, Event, cancel, listen, Env, World, Left, Progress, next, leave, is_cancelling, mark,
  notice, happen, after_step, round, loop,
}

module _ {S : Type 0} where
  -- The steps of a list that are not nil, the last one first, on top of `ds`.
  abbrev pub stacked : List (Option (Step S)) → List (Step S) → List (Step S)
  stacked [] ds = ds
  stacked (none ∷ steps) ds = stacked steps ds
  stacked (some step ∷ steps) ds = stacked steps (step ∷ ds)

module _ {S : Type 0} (bag : StateBag S) where
  -- A round that does not go on has put a key that says why, or has panicked.
  abbrev Signalled : Step S → List (Step S) → Progress S → Type 0
  Signalled step ds (next ds' w) = ds' ≡ step ∷ ds
  Signalled step ds (leave l) =
      (l.panicking
        || is_set bag state_cancelled l.world.state
        || is_set bag state_halted l.world.state)
      ≡ true

  after_step-Signalled :
      (action : StepAction) (step : Step S) (ds : List (Step S)) (w : World S)
      → Signalled step ds (after_step bag action (step ∷ ds) w)
  unfolding after_step
  after_step-Signalled action_continue step ds w = ground arith
  after_step-Signalled action_halt step ds w =
      ground (arith, is_set-put bag state_halted (Value.bool true) w.state)

  -- A round, by how it ends.
  round_elim :
      (P : Progress S → Type 0) (env : Env) (i : ℕ) (st : RunState) (step : Step S)
      (ds : List (Step S)) (w : World S)
      → ((w' : World S)
          → P (leave (record { deferred = ds; world = mark bag w'; panicking = false })))
      → ((w' : World S) → P (leave (record { deferred = ds; world = w'; panicking = true })))
      → ((action : StepAction) (done : Bool) (s : S) (w' : World S)
          → (step.run done s).0 ≡ some action
          → P (after_step bag action (step ∷ ds) w'))
      → P (round bag env i st step ds w)
  unfolding round
  round_elim P env i st step ds w stopped crashed stepped =
      let w' = happen bag (env.before_check i) w in
      let w'' = happen bag (env.before_run i) w' in
      elim (Bool-cases (w'.ctx_done || is_cancelling st)) [
        | inl stop ↦ rw stop (stopped w')
        | inr go ↦ rw go (elim (Option-cases (step.run w''.ctx_done w''.state).0) [
          | inl crash ↦ rw crash (crashed _)
          | inr (action, e) ↦ rw e (stepped action w''.ctx_done w''.state _ e)
        ])
      ]

  round-Signalled :
      (env : Env) (i : ℕ) (st : RunState) (step : Step S) (ds : List (Step S)) (w : World S)
      → Signalled step ds (round bag env i st step ds w)
  round-Signalled env i st step ds w =
      round_elim (Signalled step ds) env i st step ds w
        (λ w'. ground (arith, is_set-put bag state_cancelled (Value.bool true) w'.state))
        (λ w'. refl) (λ action done s w' e. after_step-Signalled action step ds w')

  -- Whatever the steps and the other goroutines do, the loop is left with the clean-up of every
  -- step deferred, by a panic, or with the cancelled or the halted key in the bag.
  pub loop-signals :
      (env : Env) (i : ℕ) (st : RunState) (steps : List (Option (Step S))) (ds : List (Step S))
      (w : World S)
      → let l = loop bag env i st steps ds w in
        (l.deferred ≡ stacked steps ds)
        ⊎ ((l.panicking
              || is_set bag state_cancelled l.world.state
              || is_set bag state_halted l.world.state)
            ≡ true)
  unfolding loop
  loop-signals env i st [] ds w = inl refl
  loop-signals env i st (none ∷ steps) ds w = loop-signals env (suc i) st steps ds w
  loop-signals env i st (some step ∷ steps) ds w =
      signals_next (round bag env i st step ds w) (round-Signalled env i st step ds w)
        (λ ds' w'. loop-signals env (suc i) st steps ds' w')
    where
      signals_next :
          (p : Progress S)
          → Signalled step ds p
          → ((ds' : List (Step S)) (w' : World S)
              → let l = loop bag env (suc i) st steps ds' w' in
                (l.deferred ≡ stacked steps ds')
                ⊎ ((l.panicking
                      || is_set bag state_cancelled l.world.state
                      || is_set bag state_halted l.world.state)
                    ≡ true))
          → let l : Left S = elim p [
            | next ds' w' ↦ loop bag env (suc i) st steps ds' w'
            | leave l ↦ l
          ] in
            (l.deferred ≡ stacked steps (step ∷ ds))
            ⊎ ((l.panicking
                  || is_set bag state_cancelled l.world.state
                  || is_set bag state_halted l.world.state)
                ≡ true)
      signals_next (next ds' w') top rest = rw top (rest (step ∷ ds) w')
      signals_next (leave l) signal rest = inr signal

  -- The step returns a halt, whatever it is given.
  abbrev pub Halts : Step S → Type 0
  Halts step = (done : Bool) (s : S) → (step.run done s).0 ≡ some action_halt

  round-halt :
      (env : Env) (i : ℕ) (st : RunState) (step : Step S) (ds : List (Step S)) (w : World S)
      → Halts step
      → (l : Left S) × (round bag env i st step ds w ≡ leave l)
  round-halt env i st step ds w h =
      round_elim (λ p. (l : Left S) × (p ≡ leave l)) env i st step ds w (λ w'. (_, refl))
        (λ w'. (_, refl)) (λ action done s w' e. after_halt action w' (sym (h done s) ∙ e))
    where
      halted : World S → World S
      halted w' = record w' { state = bag.put state_halted (Value.bool true) w'.state }

      after_halt :
          (action : StepAction) (w' : World S)
          → some action_halt ≡ some action
          → (l : Left S) × (after_step bag action (step ∷ ds) w' ≡ leave l)
      after_halt action_continue w' e = cc
      after_halt action_halt w' e = elim (Bool-cases (is_set bag state_cancelled w'.state)) [
        | inl set ↦ (
          record { deferred = step ∷ ds; world = w'; panicking = false },
          unfold after_step in rw set,
        )
        | inr unset ↦ (
          record { deferred = step ∷ ds; world = halted w'; panicking = false },
          unfold after_step in rw unset,
        )
      ]

  -- A round with the step leaves the loop.
  abbrev pub Cuts : Env → RunState → Step S → Type 0
  Cuts env st step =
      (i : ℕ) (ds : List (Step S)) (w : World S)
      → (l : Left S) × (round bag env i st step ds w ≡ leave l)

  pub loop-cut :
      (env : Env) (i : ℕ) (st : RunState) (before after : List (Option (Step S))) (step : Step S)
      (ds : List (Step S)) (w : World S)
      → Cuts env st step
      → loop bag env i st (before ++ some step ∷ after) ds w
        ≡ loop bag env i st (before ++ some step ∷ []) ds w
  unfolding loop
  loop-cut env i st [] after step ds w h = rw ((h i ds w).1, loop)
  loop-cut env i st (none ∷ before) after step ds w h =
      loop-cut env (suc i) st before after step ds w h
  loop-cut env i st (some first ∷ before) after step ds w h =
      elim (round bag env i st first ds w)
        as (λ p.
          ◌≡◌ {A = Left S}
            (elim p [
              | next ds' w' ↦ loop bag env (suc i) st (before ++ some step ∷ after) ds' w'
              | leave l ↦ l
            ])
            (elim p [
              | next ds' w' ↦ loop bag env (suc i) st (before ++ some step ∷ []) ds' w'
              | leave l ↦ l
            ])) [
              | next ds' w' ↦ loop-cut env (suc i) st before after step ds' w' h
              | leave l ↦ refl
            ]

  -- A loop with such a step in it has put a key that says why it was left, or has panicked.
  pub loop-cut_signals :
      (env : Env) (i : ℕ) (st : RunState) (before after : List (Option (Step S))) (step : Step S)
      (ds : List (Step S)) (w : World S)
      → Cuts env st step
      → let l = loop bag env i st (before ++ some step ∷ after) ds w in
        (l.panicking
          || is_set bag state_cancelled l.world.state
          || is_set bag state_halted l.world.state)
        ≡ true
  unfolding loop
  loop-cut_signals env i st [] after step ds w h =
      let signal = round-Signalled env i st step ds w in
      rw ((h i ds w).1, loop) (rw ((h i ds w).1) at signal)
  loop-cut_signals env i st (none ∷ before) after step ds w h =
      loop-cut_signals env (suc i) st before after step ds w h
  loop-cut_signals env i st (some first ∷ before) after step ds w h =
      go (round bag env i st first ds w) (round-Signalled env i st first ds w)
        (λ ds' w'. loop-cut_signals env (suc i) st before after step ds' w' h)
    where
      go :
          (p : Progress S)
          → Signalled first ds p
          → ((ds' : List (Step S)) (w' : World S)
              → let l = loop bag env (suc i) st (before ++ some step ∷ after) ds' w' in
                (l.panicking
                  || is_set bag state_cancelled l.world.state
                  || is_set bag state_halted l.world.state)
                ≡ true)
          → let l : Left S = elim p [
            | next ds' w' ↦ loop bag env (suc i) st (before ++ some step ∷ after) ds' w'
            | leave l ↦ l
          ] in
            (l.panicking
              || is_set bag state_cancelled l.world.state
              || is_set bag state_halted l.world.state)
            ≡ true
      go (next ds' w') top rest = rest ds' w'
      go (leave l) signal rest = signal

  -- A step that panics, whatever it is given, cuts the loop off.
  pub panic-Cuts :
      (env : Env) (st : RunState) (step : Step S)
      → ((done : Bool) (s : S) → (step.run done s).0 ≡ none)
      → Cuts env st step
  panic-Cuts env st step h i ds w =
      round_elim (λ p. (l : Left S) × (p ≡ leave l)) env i st step ds w (λ w'. (_, refl))
        (λ w'. (_, refl)) (λ action done s w' e. absurd (clash action (sym (h done s) ∙ e)))
    where
      clash : (action : StepAction) → none ≡ some action → ⊥
      clash action e = cc

  -- For a step that returns a halt whatever it is given: the loop over any steps with that step
  -- among them is left in the same way, whatever steps stand behind it.
  pub loop-halting_step :
      (env : Env) (i : ℕ) (st : RunState) (before after : List (Option (Step S))) (step : Step S)
      (ds : List (Step S)) (w : World S)
      → Halts step
      → loop bag env i st (before ++ some step ∷ after) ds w
        ≡ loop bag env i st (before ++ some step ∷ []) ds w
  loop-halting_step env i st before after step ds w h =
      loop-cut env i st before after step ds w (λ j es v. round-halt env j st step es v h)

  happen-ctx_done :
      (es : List Event) (w : World S) → w.ctx_done ≡ true → (happen bag es w).ctx_done ≡ true
  happen-ctx_done [] w h = h
  happen-ctx_done (cancel ∷ es) w h = happen-ctx_done es (record w { ctx_done = true }) refl
  happen-ctx_done (listen ∷ es) w h = happen-ctx_done es (notice bag w) (ground arith)

  round-ctx_done :
      (env : Env) (i : ℕ) (st : RunState) (step : Step S) (ds : List (Step S)) (w : World S)
      → w.ctx_done ≡ true
      → round bag env i st step ds w
        ≡ leave (record {
          deferred = ds;
          world = mark bag (happen bag (env.before_check i) w);
          panicking = false;
        })
  unfolding round
  round-ctx_done env i st step ds w h = rw (happen-ctx_done (env.before_check i) w h)

  -- With a context that is done before the loop, no further clean-up is deferred, there is no panic, and
  -- either there was no step or the cancelled key is in the bag.
  pub loop-ctx_done :
      (env : Env) (i : ℕ) (st : RunState) (steps : List (Option (Step S))) (ds : List (Step S))
      (w : World S)
      → w.ctx_done ≡ true
      → let l = loop bag env i st steps ds w in
        (l.deferred ≡ ds)
        × (l.panicking ≡ false)
        × ((stacked steps [] ≡ []) ⊎ (is_set bag state_cancelled l.world.state ≡ true))
  unfolding loop
  loop-ctx_done env i st [] ds w h = (refl, refl, inl refl)
  loop-ctx_done env i st (none ∷ steps) ds w h = loop-ctx_done env (suc i) st steps ds w h
  loop-ctx_done env i st (some step ∷ steps) ds w h =
      rw (round-ctx_done env i st step ds w h, loop)
        (refl, refl, inr (is_set-put bag state_cancelled (Value.bool true) _))
