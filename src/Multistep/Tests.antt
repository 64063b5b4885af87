-- ===== src/Multistep/Tests.antt =====
-- Runs of the runners on a few steps, and the theorems at concrete inputs.
use packer_plugin_sdk.Prelude.{
  ◌≡◌, refl, true, false, Option, none, some, String, List, [], ◌∷◌, map, ◌⊎◌, ◌||◌, if◌then◌else◌,
  str_eq,
}
use packer_plugin_sdk.Multistep.StateBag.{Value, StateBag, state_cancelled, state_halted, is_set}
use packer_plugin_sdk.Multistep.BasicStateBag.{BasicStateBag, empty, get_ok, put}
use packer_plugin_sdk.Multistep.BasicStateBag.Laws.{IsValid, put-IsValid}
use packer_plugin_sdk.Multistep.Step.{StepAction, action_continue, action_halt, plain, Step}
use packer_plugin_sdk.Multistep.BasicRunner.{
  quiet, idle, running, BasicRunner, Outcome, returned, already_running, blocked, loop, run,
  clean_up, after_step,
}
use packer_plugin_sdk.Multistep.BasicRunner.Signals.{
  stacked, loop-signals, loop-halting_step, loop-ctx_done,
}
use packer_plugin_sdk.Multistep.BasicRunner.Logged.{
  Entry, ran, cleaned, logged?, logged_bag, names, Orderly,
}
use packer_plugin_sdk.Multistep.BasicRunner.Trace.{run-Orderly}
use packer_plugin_sdk.Multistep.DebugRunner.{
  DebugLocation, DebugRunner, debug_runner_of, debug_run, debug_outcome,
}
use packer_plugin_sdk.Multistep.DebugRunner.Once.{debug_run_once}
use packer_plugin_sdk.Multistep.DebugRunner.Refines.{debug_run-run}

-- A bag that is the function from its keys to its entries.
abbrev Notes : Type 0
Notes = String → Option Value

abbrev notes : StateBag Notes
notes = record {
  get_ok = λ k s. s k;
  put = λ k v s j. if str_eq k j then some v else s j;
  remove = λ k s j. if str_eq k j then none else s j;
  get_ok-put = λ k j v s. refl;
  get_ok-remove = λ k j s. refl;
}

abbrev blank : Notes
blank j = none

abbrev step_of : String → StepAction → Step Notes
step_of name action = record {
  step_name = name;
  inner_name = plain;
  run = λ done s. (some action, s);
  cleanup = λ s. s;
}

abbrev create : Step Notes
create = step_of "create" action_continue

abbrev provision : Step Notes
provision = step_of "provision" action_halt

abbrev upload : Step Notes
upload = step_of "upload" action_continue

abbrev build : List (Option (Step Notes))
build = some create ∷ none ∷ some provision ∷ some upload ∷ []

abbrev runner : BasicRunner Notes
runner = record { steps = build; run_state = idle; locked = false }

abbrev logged_runner : BasicRunner (Notes × List Entry)
logged_runner = record { steps = map logged? build; run_state = idle; locked = false }

log_of : {R : Type 0} → Outcome R (Notes × List Entry) → List Entry
log_of (returned r p) = p.1
log_of _ = []

run_logs :
    log_of (run (logged_bag notes) quiet false logged_runner (blank, []))
    ≡ ran "create" ∷ ran "provision" ∷ cleaned "provision" ∷ cleaned "create" ∷ []
unfolding log_of run after_step str_eq
run_logs = refl

put-IsValid_example :
    (b' : BasicStateBag) × (put "ip" (Value.other 7) empty ≡ some b')
    × IsValid b'
    × ((j : String)
        → get_ok j b' ≡ (if str_eq "ip" j then some (Value.other 7) else get_ok j empty))
put-IsValid_example = put-IsValid "ip" (Value.other 7) empty refl

run-Orderly_example :
    Orderly (names build) (run (logged_bag notes) quiet false logged_runner (blank, []))
run-Orderly_example = run-Orderly notes quiet false runner blank

loop-signals_example :
    let l =
      loop notes quiet 0 running build []
        (record { state = blank; ctx_done = false; listening = true }) in
    (l.deferred ≡ stacked build [])
    ⊎ ((l.panicking
          || is_set notes state_cancelled l.world.state
          || is_set notes state_halted l.world.state)
        ≡ true)
loop-signals_example =
    loop-signals notes quiet 0 running build []
      (record { state = blank; ctx_done = false; listening = true })

loop-halting_step_example :
    loop notes quiet 0 running
      (some create ∷ some provision ∷ some upload ∷ [])
      []
      (record { state = blank; ctx_done = false; listening = true })
    ≡ loop notes quiet 0 running
        (some create ∷ some provision ∷ [])
        []
        (record { state = blank; ctx_done = false; listening = true })
loop-halting_step_example =
    loop-halting_step notes quiet 0 running (some create ∷ []) (some upload ∷ []) provision []
      (record { state = blank; ctx_done = false; listening = true }) (λ done s. refl)

loop-ctx_done_example :
    let l =
      loop notes quiet 0 running build []
        (record { state = blank; ctx_done = true; listening = true }) in
    (l.deferred ≡ [])
    × (l.panicking ≡ false)
    × ((stacked build [] ≡ []) ⊎ (is_set notes state_cancelled l.world.state ≡ true))
loop-ctx_done_example =
    loop-ctx_done notes quiet 0 running build []
      (record { state = blank; ctx_done = true; listening = true }) refl

abbrev silent : DebugLocation → String → Notes → Notes
silent loc name s = s

abbrev keyboard : String → Notes → Notes
keyboard message s = s

debug_run-run_example :
    debug_run notes keyboard quiet false (debug_runner_of build silent) blank
    ≡ debug_outcome
        (record { steps = build; pause_fn = some silent; has_runner = true; locked = false })
        (run notes quiet false runner blank)
debug_run-run_example =
    debug_run-run notes keyboard false silent build blank (λ loc name t. refl) refl

abbrev used : DebugRunner Notes
used = record { steps = []; pause_fn = some silent; has_runner = true; locked = false }

debug_run_once_example :
    (debug_run notes keyboard quiet false used blank
      ≡ already_running (record used { locked = true }))
    × (debug_run notes keyboard quiet false (record used { locked = true }) blank ≡ blocked)
unfolding debug_run run loop clean_up
debug_run_once_example =
    debug_run_once notes keyboard quiet quiet quiet false false false (debug_runner_of [] silent)
      used blank blank blank blank refl
