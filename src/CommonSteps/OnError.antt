-- ===== src/CommonSteps/OnError.antt =====
-- multistep/commonsteps/multistep_runner.go: the wrappers that decide what follows a failed step.
pub mod Handle
pub mod Ask
pub mod Abort
use mathlib.Core.Option
use packer_plugin_sdk.Prelude.{
  join, ℕ, zero, suc, ◌+◌, Bool, true, false, Option, none, some, List, [], ◌∷◌, map, String,
  if◌then◌else◌, ◌&&◌, ◌||◌, not, leb, ◌==◌, str_eq, is_some, length, ◌⊎◌, inl, inr,
}
use packer_plugin_sdk.Multistep.StateBag.{Value, StateBag, is_set, state_cancelled, state_halted}
use packer_plugin_sdk.Multistep.Step.{
  StepAction, action_continue, action_halt, Step, InnerName, wraps, nameless,
}
use packer_plugin_sdk.Multistep.BasicRunner.{BasicRunner, idle}
use packer_plugin_sdk.Multistep.DebugRunner.{
  DebugPauseFn, DebugLocation, after_run, before_cleanup, DebugRunner,
}
use packer_plugin_sdk.CommonSteps.Ui.{Ui, Format}

pub data AskResponse : Type 0 where
  ask_cleanup ask_abort ask_retry : AskResponse

-- What happens while a prompt is open: a line is typed, a tenth of a second passes, or the runner's
-- goroutine marks the bag after the context is done. Where the list ends the input is closed.
pub data PromptEvent : Type 0 where
  line : List ℕ → PromptEvent
  tick interrupt : PromptEvent

-- The state with the prompt events to come.
abbrev pub Console : Type 0 → Type 0
Console S = S × List PromptEvent

-- The first byte of `strings.ToLower(line) + "c"`.
abbrev pub first_byte : List ℕ → ℕ
first_byte [] = b'c'
first_byte (b ∷ bs) = if leb b'A' b && leb b b'Z' then b + 32 else b

unfoldable pub answer : List ℕ → Option AskResponse
answer l =
    let b = first_byte l in
    if b == b'c'
    then some ask_cleanup
    else if b == b'a'
    then some ask_abort
    else if b == b'r'
    then some ask_retry
    else none

module _ {S : Type 0} {bag : StateBag S} (ui : Ui S bag) (fmt : Format) where
  abbrev logs : String → S → S
  logs message s = bag.put "abort_step_logged" (Value.bool true) (ui.error message s)

  -- One of the two endings of `handleAbortsAndInterupts` that skip a clean-up.
  abbrev skip : Bool → String → String → S → Bool × S
  skip already first name s = (
    false,
    if already
        then ui.error (join "aborted: skipping cleanup of step " (fmt.quote name)) s
        else logs first s,
  )

  -- The message of the error that a step left in the bag.
  abbrev log_error : Bool → S → S
  log_error already s = elim (bag.get_ok "error" s) [
    | none ↦ s
    | some err ↦ if already then s else logs (fmt.value err) s
  ]

  unfoldable pub handle_aborts_and_interrupts : String → S → Bool × S
  handle_aborts_and_interrupts name s =
      let already = is_set bag "abort_step_logged" s in
      let s' = log_error already s in
      if is_set bag state_cancelled s'
      then skip already "Interrupted, aborting..." name s'
      else if is_set bag state_halted s'
      then skip already (join "Step " (join (fmt.quote name) " failed, aborting...")) name s'
      else (true, s')

  -- `abortStep.Cleanup`
  unfoldable pub abort_cleanup : Bool → Step S → S → S
  abort_cleanup cleanup_prov step s =
      if str_eq step.step_name "StepProvision" && cleanup_prov
      then step.cleanup s
      else let (should_cleanup, s') = handle_aborts_and_interrupts step.step_name s in
        if should_cleanup then step.cleanup s' else s'

  -- `abortStep`. Around a nil step its methods panic.
  unfoldable pub abort_step : Bool → Option (Step S) → Step S
  abort_step cleanup_prov none = record {
    step_name = "abortStep";
    inner_name = nameless;
    run = λ done s. (none, s);
    cleanup = λ s. s;
  }
  abort_step cleanup_prov (some step) = record {
    step_name = "abortStep";
    inner_name = wraps step.step_name;
    run = step.run;
    cleanup = abort_cleanup cleanup_prov step;
  }

  -- The wait of `ask`, with the prompt of `askPrompt` in its own goroutine: the first of a valid answer
  -- and a poll that finds the bag cancelled. The flag says whether the context is done.
  unfoldable pub ask_wait : List PromptEvent → Bool → S → AskResponse × Bool × Console S
  ask_wait [] done s = (ask_cleanup, done, (s, []))
  ask_wait (line l ∷ es) done s = elim (answer l) [
    | some response ↦ (response, done, (s, es))
    | none ↦ ask_wait es done (ui.say (join "Incorrect input: " (fmt.line l)) s)
  ]
  ask_wait (tick ∷ es) done s =
      let rest = ask_wait es done s in
      if is_set bag state_cancelled s then (ask_cleanup, done, (s, es)) else rest
  ask_wait (interrupt ∷ es) done s = ask_wait es true (bag.put state_cancelled (Value.bool true) s)

  unfoldable pub ask : String → Bool → Console S → AskResponse × Bool × Console S
  unfolding ask_wait
  ask name done p = ask_wait p.1 done (ui.say (join "Step " (join (fmt.quote name) " failed")) p.0)

  -- The message of `askStep.Run` after a halt.
  abbrev show_error : S → S
  show_error s = elim (bag.get_ok "error" s) [ none ↦ s | some err ↦ ui.error (fmt.value err) s ]

  -- `askStep.Run`, whose loop has fuel: `none` means that it ran out.
  unfoldable pub ask_run : ℕ → Step S → Bool → Console S → Option (Option StepAction × Console S)
  ask_run zero step done p = none
  ask_run (suc fuel) step done p =
      let (result, s) = step.run done p.0 in
      elim result [
        | none ↦ some (none, (s, p.1))
        | some action ↦ elim action [
          | action_continue ↦ some (some action_continue, (s, p.1))
          | action_halt ↦
              let (response, done', (t, es)) = ask step.step_name done (show_error s, p.1) in
              elim response [
                | ask_cleanup ↦ some (some action_halt, (t, es))
                | ask_abort ↦ some (some action_halt, (bag.put "aborted" (Value.bool true) t, es))
                | ask_retry ↦ ask_run fuel step done' (t, es)
              ]
        ]
      ]

  -- `askStep.Cleanup`
  unfoldable pub ask_cleanup_step : Step S → S → S
  ask_cleanup_step step s =
      if is_set bag "aborted" s
      then (let (should_cleanup, s') = handle_aborts_and_interrupts step.step_name s in
          if should_cleanup then step.cleanup s' else s')
      else step.cleanup s

  -- `askStep`, with enough fuel for the prompt events that are left.
  unfoldable pub ask_step : Option (Step S) → Step (Console S)
  ask_step none = record {
    step_name = "askStep";
    inner_name = nameless;
    run = λ done p. (none, p);
    cleanup = λ p. p;
  }
  ask_step (some step) = record {
    step_name = "askStep";
    inner_name = wraps step.step_name;
    run = λ done p. elim (ask_run (suc (length p.1)) step done p) [ none ↦ (none, p) | some r ↦ r ];
    cleanup = λ p. (ask_cleanup_step step p.0, p.1);
  }
