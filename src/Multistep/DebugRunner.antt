-- ===== src/Multistep/DebugRunner.antt =====
-- multistep/debug_runner.go: a runner that pauses after each step and before each clean-up.
pub mod Once
pub mod Refines
use packer_plugin_sdk.Prelude.{
  Bool, true, false, Option, none, some, List, [], ◌∷◌, String, if◌then◌else◌, not, join,
}
use packer_plugin_sdk.Multistep.StateBag.{StateBag}
use packer_plugin_sdk.Multistep.Step.{action_continue, InnerName, plain, wraps, nameless, Step}
use packer_plugin_sdk.Multistep.BasicRunner.{
  Env, idle, BasicRunner, Outcome, blocked, already_running, returned, panicked, run,
}

pub data DebugLocation : Type 0 where
  after_run before_cleanup : DebugLocation

abbrev pub DebugPauseFn : Type 0 → Type 0
DebugPauseFn S = DebugLocation → String → S → S

-- `has_runner`: the field `runner` is not nil.
pub record DebugRunner (S : Type 0) : Type 0 where
  pub steps : List (Option (Step S))
  pub pause_fn : Option (DebugPauseFn S)
  pub has_runner : Bool
  pub locked : Bool

abbrev location_string : DebugLocation → String
location_string after_run = "after run of"
location_string before_cleanup = "before cleanup of"

-- `terminal` shows a text and waits for a line.
unfoldable pub debug_pause_default : {S : Type 0} → (String → S → S) → DebugPauseFn S
debug_pause_default terminal loc name s =
    terminal
      (join "Pausing "
        (join (location_string loc) (join " step '" (join name "'. Press any key to continue.\n"))))
      s

module _ {S : Type 0} where
  -- `debugStepPause`
  abbrev pub debug_step_pause : String → DebugPauseFn S → Step S
  debug_step_pause name pause = record {
    step_name = "debugStepPause";
    inner_name = plain;
    run = λ done s. (some action_continue, pause after_run name s);
    cleanup = λ s. pause before_cleanup name s;
  }

  abbrev pub shown_name : Step S → String
  shown_name step = elim step.inner_name [
    | plain ↦ step.step_name
    | wraps name ↦ name
    | nameless ↦ ""
  ]

  -- Whether every step that is asked for its name gives one.
  abbrev pub all_named : List (Option (Step S)) → Bool
  all_named [] = true
  all_named (none ∷ steps) = all_named steps
  all_named (some step ∷ steps) = elim step.inner_name [ nameless ↦ false | _ ↦ all_named steps ]

  -- The list of `Run`: a pause behind each step, and two nils for a nil.
  unfoldable pub debug_steps : DebugPauseFn S → List (Option (Step S)) → List (Option (Step S))
  debug_steps pause [] = []
  debug_steps pause (none ∷ steps) = none ∷ none ∷ debug_steps pause steps
  debug_steps pause (some step ∷ steps) =
      some step ∷ some (debug_step_pause (shown_name step) pause) ∷ debug_steps pause steps

-- The inner runner's end, as the debug runner's.
abbrev pub debug_outcome : {R Q S : Type 0} → Q → Outcome R S → Outcome Q S
debug_outcome q blocked = blocked
debug_outcome q (already_running r) = already_running q
debug_outcome q (returned r s) = returned q s
debug_outcome q (panicked r s) = panicked q s

-- `Run`. The field `runner` is set for good, also if a step has no name to show.
unfoldable pub debug_run :
    {S : Type 0}
    → StateBag S
    → (String → S → S)
    → Env
    → Bool
    → DebugRunner S
    → S
    → Outcome (DebugRunner S) S
unfolding run debug_steps debug_pause_default
debug_run {S} bag terminal env done r s =
    if r.locked
    then blocked
    else if r.has_runner
    then already_running (record r { locked = true })
    else if not (all_named r.steps)
    then panicked (record r { has_runner = true }) s
    else let pause : DebugPauseFn S = elim r.pause_fn [
      | none ↦ debug_pause_default terminal
      | some f ↦ f
    ] in
      let inner : BasicRunner S = record {
        steps = debug_steps pause r.steps;
        run_state = idle;
        locked = false;
      } in
      debug_outcome (record r { has_runner = true }) (run bag env done inner s)

-- A debug runner that has not run yet.
abbrev pub debug_runner_of : {S : Type 0} → List (Option (Step S)) → DebugPauseFn S → DebugRunner S
debug_runner_of steps pause = record {
  steps = steps;
  pause_fn = some pause;
  has_runner = false;
  locked = false;
}
