-- ===== src/Multistep/BasicRunner/Trace.antt =====
-- Which steps run and which clean-ups run, in what order, whatever the steps and the other
-- goroutines do.
use packer_plugin_sdk.Prelude.{
  ℕ, suc, ◌≡◌, refl, ap, ◌∙◌, Bool, true, false, Option, none, some, List, [], ◌∷◌, ◌++◌, map,
  reverse, append-nil, append_assoc, map-append, reverse-append, String, arith, is_some, not,
  length, ◌⊎◌, inl, inr, Bool-cases, ◌||◌, Option-cases, if◌then◌else◌,
}
use packer_plugin_sdk.Multistep.StateBag.{StateBag}
use packer_plugin_sdk.Multistep.Step.{StepAction, Step}
use packer_plugin_sdk.Multistep.BasicRunner.{
  RunState, Env, World, Left, Progress, next, leave, BasicRunner, returned, panicked, is_cancelling,
  is_idle, running, happen, after_step, round, loop, clean_up, run,
}
use packer_plugin_sdk.Multistep.BasicRunner.Logged.{
  Entry, ran, cleaned, logged, logged?, names, logged_bag, Orderly, happen-log,
}

abbrev to_list : Option String → List String
to_list none = []
to_list (some x) = x ∷ []

module _ {S : Type 0} (bag : StateBag S) where
  -- What a round of a step does to the stack and to the log: the loop goes on after the
  -- step, or ends before it, after it, or by its panic.
  abbrev Moved :
      Step (S × List Entry)
      → List (Step (S × List Entry))
      → List Entry
      → Progress (S × List Entry)
      → Type 0
  Moved step ds log (next ds' w) = (ds' ≡ step ∷ ds) × (w.state.1 ≡ log ++ ran step.step_name ∷ [])
  Moved step ds log (leave l) =
      ((l.deferred ≡ ds) × (l.world.state.1 ≡ log) × (l.panicking ≡ false))
      ⊎ ((l.deferred ≡ step ∷ ds)
          × (l.world.state.1 ≡ log ++ ran step.step_name ∷ [])
          × (l.panicking ≡ false))
      ⊎ ((l.deferred ≡ ds)
          × (l.world.state.1 ≡ log ++ ran step.step_name ∷ [])
          × (l.panicking ≡ true))

  after_step-Moved :
      (action : StepAction) (step : Step (S × List Entry)) (ds : List (Step (S × List Entry)))
      (log : List Entry) (w : World (S × List Entry))
      → w.state.1 ≡ log ++ ran step.step_name ∷ []
      → Moved step ds log (after_step (logged_bag bag) action (step ∷ ds) w)
  unfolding after_step
  after_step-Moved action step ds log w h = ground arith

  round-Moved :
      (env : Env) (i : ℕ) (st : RunState) (step : Step S) (ds : List (Step (S × List Entry)))
      (w : World (S × List Entry))
      → Moved (logged step) ds w.state.1 (round (logged_bag bag) env i st (logged step) ds w)
  unfolding round
  round-Moved env i st step ds w =
      let w' = happen (logged_bag bag) (env.before_check i) w in
      let w'' = happen (logged_bag bag) (env.before_run i) w' in
      let (result, p) = (logged step).run w''.ctx_done w''.state in
      let stepped : World (S × List Entry) = record w'' { state = p } in
      let after = happen (logged_bag bag) (env.after_run i) stepped in
      let log' : w''.state.1 ≡ w.state.1 =
        happen-log bag (env.before_run i) w' ∙ happen-log bag (env.before_check i) w in
      let log'' : after.state.1 ≡ w.state.1 ++ ran step.step_name ∷ [] =
        happen-log bag (env.after_run i) stepped ∙ ap (λ l. l ++ ran step.step_name ∷ []) log' in
      elim (Bool-cases (w'.ctx_done || is_cancelling st)) [
        | inl stop ↦ rw stop (inl (refl, happen-log bag (env.before_check i) w, refl))
        | inr go ↦ rw go (elim (Option-cases result) [
          | inl crash ↦ rw crash (inr (inr (refl, log'', refl)))
          | inr (action, e) ↦ rw e (after_step-Moved action (logged step) ds w.state.1 after log'')
        ])
      ]

  -- From the steps `names` still to come, `more` have run, `crash` is the one that panicked, and `ds`
  -- have their clean-up deferred.
  abbrev Traced : List String → List String → Left (S × List Entry) → Type 0
  Traced names e l =
      (more rest : List String) × (crash : Option String) × (ds : List (Step S)) × (names
        ≡ more ++ (to_list crash ++ rest))
      × (l.deferred ≡ map logged ds)
      × (map Step.step_name ds ≡ reverse (e ++ more))
      × (l.world.state.1 ≡ map ran (e ++ (more ++ to_list crash)))
      × (l.panicking ≡ is_some crash)

  Traced-cons :
      (name : String) (rest e : List String) (l : Left (S × List Entry))
      → Traced rest (e ++ name ∷ []) l
      → Traced (name ∷ rest) e l
  Traced-cons name rest e l (more, later, crash, ds, split, stack, named, log, fine) = (
    name ∷ more,
    later,
    crash,
    ds,
    ap (λ t. name ∷ t) split,
    stack,
    rw append_assoc at named,
    rw append_assoc at log,
    fine,
  )

  names_push :
      (step : Step S) (e : List String) (ds : List (Step S))
      → map Step.step_name ds ≡ reverse e
      → map Step.step_name (step ∷ ds) ≡ reverse (e ++ step.step_name ∷ [])
  names_push step e ds hd =
      rw (reverse-append e (step.step_name ∷ [])) (ap (λ t. step.step_name ∷ t) hd)

  log_push :
      (name : String) (e : List String) (log log' : List Entry)
      → log ≡ map ran e
      → log' ≡ log ++ ran name ∷ []
      → log' ≡ map ran (e ++ name ∷ [])
  log_push name e log log' hl noted = rw (noted, hl, map-append)

  Moved-Traced :
      (step : Step S) (rest e : List String) (ds : List (Step S)) (log : List Entry)
      (k : List (Step (S × List Entry)) → World (S × List Entry) → Left (S × List Entry))
      → map Step.step_name ds ≡ reverse e
      → log ≡ map ran e
      → ((w : World (S × List Entry))
          → w.state.1 ≡ map ran (e ++ step.step_name ∷ [])
          → Traced rest (e ++ step.step_name ∷ []) (k (map logged (step ∷ ds)) w))
      → (p : Progress (S × List Entry)) → Moved (logged step) (map logged ds) log p
      → Traced (step.step_name ∷ rest) e (elim p [ next ds' w ↦ k ds' w | leave l ↦ l ])
  Moved-Traced step rest e ds log k hd hl ih (next ds' w) (top, noted) = rw top (
      Traced-cons step.step_name rest e (k (map logged (step ∷ ds)) w)
        (ih w (log_push step.step_name e log w.state.1 hl noted)))
  Moved-Traced step rest e ds log k hd hl ih (leave l) (inl (same, noted, fine)) = (
    [],
    step.step_name ∷ rest,
    none,
    ds,
    refl,
    same,
    rw (append-nil e) hd,
    rw append-nil (noted ∙ hl),
    fine,
  )
  Moved-Traced step rest e ds log k hd hl ih (leave l) (inr (inl (top, noted, fine))) = (
    step.step_name ∷ [],
    rest,
    none,
    step ∷ ds,
    refl,
    top,
    names_push step e ds hd,
    log_push step.step_name e log l.world.state.1 hl noted,
    fine,
  )
  Moved-Traced step rest e ds log k hd hl ih (leave l) (inr (inr (same, noted, crashed))) = (
    [],
    rest,
    some step.step_name,
    ds,
    refl,
    same,
    rw (append-nil e) hd,
    log_push step.step_name e log l.world.state.1 hl noted,
    crashed,
  )

  loop-Traced :
      (env : Env) (i : ℕ) (st : RunState) (steps : List (Option (Step S))) (ds : List (Step S))
      (w : World (S × List Entry)) (e : List String)
      → map Step.step_name ds ≡ reverse e
      → w.state.1 ≡ map ran e
      → Traced
          (names steps)
          e
          (loop (logged_bag bag) env i st (map logged? steps) (map logged ds) w)
  unfolding loop
  loop-Traced env i st [] ds w e hd hl =
      ([], [], none, ds, refl, refl, rw append-nil hd, rw append-nil hl, refl)
  loop-Traced env i st (none ∷ steps) ds w e hd hl = loop-Traced env (suc i) st steps ds w e hd hl
  loop-Traced env i st (some step ∷ steps) ds w e hd hl =
      Moved-Traced step (names steps) e ds w.state.1
        (loop (logged_bag bag) env (suc i) st (map logged? steps)) hd hl
        (λ w' hl'.
          loop-Traced env (suc i) st steps (step ∷ ds) w' (e ++ step.step_name ∷ [])
            (names_push step e ds hd) hl')
        (round (logged_bag bag) env i st (logged step) (map logged ds) w)
        (round-Moved env i st step (map logged ds) w)

  clean_up-log :
      (env : Env) (ds : List (Step S)) (w : World (S × List Entry))
      → (clean_up (logged_bag bag) env (map logged ds) w).state.1
        ≡ w.state.1 ++ map cleaned (map Step.step_name ds)
  unfolding clean_up
  clean_up-log env [] w = rw append-nil
  clean_up-log env (step ∷ ds) w =
      let es = env.before_cleanup (length (map logged ds)) in
      let w' = happen (logged_bag bag) es w in
      clean_up-log env ds (record w' { state = (logged step).cleanup w'.state })
      ∙ rw (happen-log bag es w) (append_assoc w.state.1 (cleaned step.step_name ∷ []) _)

  -- The end of `run`, over any way that the loop was left.
  finish-Orderly :
      (env : Env) (names : List String) (b : BasicRunner (S × List Entry))
      (l : Left (S × List Entry))
      → Traced names [] l
      → let w = clean_up (logged_bag bag) env l.deferred l.world in
        Orderly names (if l.panicking then panicked b w.state else returned b w.state)
  finish-Orderly env names b l (more, rest, none, ds, split, stack, named, log, fine) =
      rw fine
        (more, rest, split, rw stack (clean_up-log env ds l.world ∙ rw (named, log, append-nil)))
  finish-Orderly env names b l (more, rest, some crash, ds, split, stack, named, log, fine) =
      rw fine (more, rest, crash, split, rw stack (clean_up-log env ds l.world ∙ rw (named, log)))

  -- Whatever the steps and the other goroutines do: the log of a run that returns has a front part of
  -- the steps in their order, then their clean-ups in the reverse order. If a step panics, the steps
  -- in front of it and that step have run, and the clean-ups of those in front of it follow.
  pub run-Orderly :
      (env : Env) (done : Bool) (b : BasicRunner S) (s : S)
      → let b' : BasicRunner (S × List Entry) = record {
        steps = map logged? b.steps;
        run_state = b.run_state;
        locked = b.locked;
      } in
        Orderly (names b.steps) (run (logged_bag bag) env done b' (s, []))
  unfolding run
  run-Orderly env done b s = elim (Bool-cases b.locked) [
    | inl held ↦ rw held tt
    | inr free ↦ rw free (elim (Bool-cases (not (is_idle b.run_state))) [
      | inl busy ↦ rw busy tt
      | inr ready ↦ rw ready (
          finish-Orderly env (names b.steps) _ _
            (loop-Traced env 0 running b.steps [] _ [] refl refl))
    ])
  ]
