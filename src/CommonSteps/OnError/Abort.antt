-- ===== src/CommonSteps/OnError/Abort.antt =====
-- The clean-ups of a build that has failed, under `-on-error=abort` and `run-cleanup-provisioner`.
use packer_plugin_sdk.Prelude.{
  ◌≡◌, refl, ap, sym, ◌∙◌, Bool, true, false, some, String, List, [], ◌∷◌, ◌++◌, map, map-append,
  append-nil, append_assoc, arith, if◌then◌else◌, ◌||◌, ◌&&◌, not, str_eq, inl, inr, Bool-cases,
  length, All,
}
use packer_plugin_sdk.Multistep.StateBag.{
  Value, StateBag, is_set, state_cancelled, state_halted, is_set-put,
}
use packer_plugin_sdk.Multistep.Step.{Step}
use packer_plugin_sdk.Multistep.BasicRunner.{
  Env, Event, cancel, listen, World, happen, notice, clean_up,
}
use packer_plugin_sdk.Multistep.BasicRunner.Logged.{Entry, cleaned, logged, logged_bag, happen-log}
use packer_plugin_sdk.CommonSteps.Ui.{Ui, Format}
use packer_plugin_sdk.CommonSteps.OnError.{handle_aborts_and_interrupts, abort_step, abort_cleanup}
use packer_plugin_sdk.CommonSteps.OnError.Handle.{handle-get_ok, handle-decision}

module _ {S : Type 0} {bag : StateBag S} (ui : Ui S bag) (fmt : Format) where
  -- The interface beside a log.
  abbrev pub logged_ui : Ui (S × List Entry) (logged_bag bag)
  logged_ui = record {
    error = λ m p. (ui.error m p.0, p.1);
    say = λ m p. (ui.say m p.0, p.1);
    get_ok-error = λ k m p. ui.get_ok-error k m p.0;
    get_ok-say = λ k m p. ui.get_ok-say k m p.0;
  }

  abbrev pub HasStopped : S → Type 0
  HasStopped s = (is_set bag state_cancelled s || is_set bag state_halted s) ≡ true

  -- The step's clean-up leaves the two keys that stopped the run.
  abbrev pub KeepsStopped : Step S → Type 0
  KeepsStopped step = (s : S) → HasStopped s → HasStopped (step.cleanup s)

  handle-log :
      (name : String) (p : S × List Entry)
      → (handle_aborts_and_interrupts logged_ui fmt name p).1.1 ≡ p.1
  unfolding handle_aborts_and_interrupts
  handle-log name p = ground arith

  -- The names of the steps whose clean-up runs after a stop.
  abbrev pub still_cleaned : Bool → List (Step S) → List String
  still_cleaned prov [] = []
  still_cleaned prov (step ∷ ds) =
      let rest = still_cleaned prov ds in
      if str_eq step.step_name "StepProvision" && prov then step.step_name ∷ rest else rest

  happen-HasStopped :
      (es : List Event) (w : World (S × List Entry))
      → HasStopped w.state.0
      → HasStopped (happen (logged_bag bag) es w).state.0
  happen-HasStopped [] w h = h
  happen-HasStopped (cancel ∷ es) w h = happen-HasStopped es (record w { ctx_done = true }) h
  happen-HasStopped (listen ∷ es) w h =
      happen-HasStopped es (notice (logged_bag bag) w)
        (ground (arith, is_set-put bag state_cancelled (Value.bool true) w.state.0))

  abort_cleanup-stopped :
      (prov : Bool) (step : Step S) (p : S × List Entry)
      → KeepsStopped step
      → HasStopped p.0
      → let q = abort_cleanup logged_ui fmt prov (logged step) p in
        HasStopped q.0 × (q.1 ≡ p.1 ++ map cleaned (still_cleaned prov (step ∷ [])))
  unfolding abort_cleanup str_eq
  abort_cleanup-stopped prov step p keeps h =
      let name = step.step_name in
      let handled = handle_aborts_and_interrupts logged_ui fmt name p in
      let skipped : handled.0 ≡ false = handle-decision logged_ui fmt name p ∙ ap not h in
      elim (Bool-cases (str_eq name "StepProvision" && prov)) [
        | inl due ↦ rw due (keeps p.0 h, refl)
        | inr skip ↦
            rw (skip, skipped)
              (
                rw
                    (
                      handle-get_ok logged_ui fmt state_cancelled name p refl,
                      handle-get_ok logged_ui fmt state_halted name p refl,
                    )
                    h,
                rw append-nil (handle-log name p),
              )
      ]

  -- The step as `newRunner` wraps it, with a log inside.
  abbrev pub wrapped : Bool → Step S → Step (S × List Entry)
  wrapped prov step = abort_step logged_ui fmt prov (some (logged step))

  still_cleaned-cons :
      (prov : Bool) (step : Step S) (ds : List (Step S))
      → still_cleaned prov (step ∷ ds) ≡ still_cleaned prov (step ∷ []) ++ still_cleaned prov ds
  still_cleaned-cons prov step ds = ground arith

  -- In a stopped state, with steps whose clean-ups leave it stopped: of deferred steps that are
  -- wrapped for abort or run-cleanup-provisioner, those alone are cleaned up, in their order,
  -- that are provisioning steps under the latter setting.
  pub clean_up-abort :
      (env : Env) (prov : Bool) (ds : List (Step S)) (w : World (S × List Entry))
      → All KeepsStopped ds
      → HasStopped w.state.0
      → (clean_up (logged_bag bag) env (map (wrapped prov) ds) w).state.1
        ≡ w.state.1 ++ map cleaned (still_cleaned prov ds)
  unfolding clean_up abort_step
  clean_up-abort env prov [] w keeps h = sym (append-nil _)
  clean_up-abort env prov (step ∷ ds) w keeps h =
      let es = env.before_cleanup (length (map (wrapped prov) ds)) in
      let v = happen (logged_bag bag) es w in
      let (stopped, log) =
        abort_cleanup-stopped prov step v.state keeps.0 (happen-HasStopped es w h) in
      clean_up-abort env prov ds
        (record v { state = abort_cleanup logged_ui fmt prov (logged step) v.state }) keeps.1
        stopped
      ∙ rw (log, happen-log bag es w, still_cleaned-cons prov step ds, map-append)
          (append_assoc w.state.1 (map cleaned (still_cleaned prov (step ∷ []))) _)
