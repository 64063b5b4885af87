-- ===== src/CommonSteps/NewRunner.antt =====
-- multistep/commonsteps/multistep_runner.go and multistep_debug.go: the runner for the -debug and
-- -on-error settings.
pub mod NilSteps
use mathlib.Core.Option
use packer_plugin_sdk.Prelude.{
  join, ℕ, zero, suc, ◌+◌, Bool, true, false, Option, none, some, List, [], ◌∷◌, map, String,
  if◌then◌else◌, ◌&&◌, ◌||◌, not, leb, ◌==◌, str_eq, is_some, length, ◌⊎◌, inl, inr,
}
use packer_plugin_sdk.Multistep.StateBag.{Value, StateBag, is_set, state_cancelled, state_halted}
use packer_plugin_sdk.Multistep.Step.{
  StepAction, action_continue, action_halt, Step, InnerName, wraps, nameless,
}
use packer_plugin_sdk.Multistep.BasicRunner.{BasicRunner, idle}
use packer_plugin_sdk.Multistep.DebugRunner.{
  DebugPauseFn, DebugLocation, after_run, before_cleanup, DebugRunner,
}
use packer_plugin_sdk.CommonSteps.Ui.{Ui, Format}
use packer_plugin_sdk.CommonSteps.OnError.{
  PromptEvent, line, tick, interrupt, Console, handle_aborts_and_interrupts, abort_cleanup,
  abort_step, ask_run, ask, ask_cleanup_step, ask_step,
}

-- The fields of common.PackerConfig that choose the runner.
pub record PackerConfig : Type 0 where
  pub packer_debug : Bool
  pub packer_on_error : String

module _ {S : Type 0} {bag : StateBag S} (ui : Ui S bag) (fmt : Format) where
  -- A step that has no use for the prompt.
  abbrev pub lift : Step S → Step (Console S)
  lift step = record {
    step_name = step.step_name;
    inner_name = step.inner_name;
    run = λ done p. let (result, s) = step.run done p.0 in (result, (s, p.1));
    cleanup = λ p. (step.cleanup p.0, p.1);
  }

  -- The `switch` of `newRunner`; any other text leaves the steps alone, as "cleanup" does.
  unfoldable pub wrap_steps : String → List (Option (Step S)) → List (Option (Step (Console S)))
  unfolding abort_step abort_cleanup handle_aborts_and_interrupts ask_step ask_run ask
      ask_cleanup_step
  wrap_steps on_error steps =
      if str_eq on_error "abort"
      then map (λ step. some (lift (abort_step ui fmt false step))) steps
      else if str_eq on_error "ask"
      then map (λ step. some (ask_step ui fmt step)) steps
      else if str_eq on_error "run-cleanup-provisioner"
      then map (λ step. some (lift (abort_step ui fmt true step))) steps
      else map (Option.map lift) steps

  abbrev pub location_string : DebugLocation → String
  location_string after_run = "after run of"
  location_string before_cleanup = "before cleanup of"

  -- The wait of `MultistepDebugFn`, which any line ends.
  unfoldable pub debug_wait : List PromptEvent → S → Console S
  debug_wait [] s = (s, [])
  debug_wait (line l ∷ es) s = (s, es)
  debug_wait (tick ∷ es) s =
      let rest = debug_wait es s in if is_set bag state_cancelled s then (s, es) else rest
  debug_wait (interrupt ∷ es) s = debug_wait es (bag.put state_cancelled (Value.bool true) s)

  unfoldable pub multistep_debug_fn : DebugPauseFn (Console S)
  unfolding debug_wait
  multistep_debug_fn loc name p = debug_wait p.1 (
      ui.say
        (join "Pausing "
          (join (location_string loc) (join " step '" (join name "'. Press enter to continue."))))
        p.0)

  -- `newRunner`: a debug runner under `-debug`, and a basic runner otherwise.
  unfoldable pub new_runner :
      PackerConfig → List (Option (Step S)) → DebugRunner (Console S) ⊎ BasicRunner (Console S)
  unfolding wrap_steps multistep_debug_fn
  new_runner config steps =
      let wrapped = wrap_steps config.packer_on_error steps in
      if config.packer_debug
      then inl (record {
        steps = wrapped;
        pause_fn = some multistep_debug_fn;
        has_runner = false;
        locked = false;
      })
      else inr (record { steps = wrapped; run_state = idle; locked = false })

  -- `NewRunnerWithPauseFn` puts the pause function into the bag, if there is one.
  unfoldable pub new_runner_with_pause_fn :
      PackerConfig
      → List (Option (Step S))
      → S
      → (DebugRunner (Console S) ⊎ BasicRunner (Console S)) × S
  unfolding new_runner
  new_runner_with_pause_fn config steps s = (
    new_runner config steps,
    if config.packer_debug then bag.put "pauseFn" Value.pause_fn s else s,
  )
