-- ===== src/CommonSteps/Tests.antt =====
-- The theorems about the wrappers at concrete inputs.
use packer_plugin_sdk.Prelude.{
  ◌≡◌, refl, arith, true, false, Option, none, some, String, List, [], ◌∷◌, ◌++◌, map, inl,
  if◌then◌else◌, str_eq,
}
use packer_plugin_sdk.Multistep.StateBag.{Value, StateBag}
use packer_plugin_sdk.Multistep.Step.{StepAction, action_continue, action_halt, plain, Step}
use packer_plugin_sdk.Multistep.BasicRunner.{World, quiet, clean_up, running}
use packer_plugin_sdk.Multistep.BasicRunner.Logged.{Entry, ran, cleaned, logged_bag}
use packer_plugin_sdk.CommonSteps.Ui.{Ui, Format}
use packer_plugin_sdk.CommonSteps.OnError.{PromptEvent, line, tick, Console, ask_run}
use packer_plugin_sdk.CommonSteps.OnError.Abort.{still_cleaned, wrapped, clean_up-abort}
use packer_plugin_sdk.CommonSteps.OnError.Ask.{ask_run_total}
use packer_plugin_sdk.CommonSteps.NewRunner.NilSteps.{Cut, wrap_steps-nil}
use packer_plugin_sdk.CommonSteps.NewRunner.{wrap_steps}

abbrev Notes : Type 0
Notes = String → Option Value

abbrev notes : StateBag Notes
notes = record {
  get_ok = λ k s. s k;
  put = λ k v s j. if str_eq k j then some v else s j;
  remove = λ k s j. if str_eq k j then none else s j;
  get_ok-put = λ k j v s. refl;
  get_ok-remove = λ k j s. refl;
}

-- A user interface that shows nothing.
abbrev mute : Ui Notes notes
mute = record {
  error = λ m s. s;
  say = λ m s. s;
  get_ok-error = λ k m s. refl;
  get_ok-say = λ k m s. refl;
}

abbrev texts : Format
texts = record { value = λ v. "error"; quote = λ s. s; line = λ l. "line" }

abbrev blank : Notes
blank j = none

abbrev halted : Notes
halted j = if str_eq "halted" j then some (Value.bool true) else none

abbrev step_of : String → Step Notes
step_of name = record {
  step_name = name;
  inner_name = plain;
  run = λ done s. (some action_halt, s);
  cleanup = λ s. s;
}

abbrev stack : List (Step Notes)
stack = step_of "StepProvision" ∷ step_of "StepCreate" ∷ []

abbrev world : World (Notes × List Entry)
world = record { state = (halted, ran "StepCreate" ∷ []); ctx_done = false; listening = true }

clean_up-abort_example :
    (clean_up (logged_bag notes) quiet (map (wrapped mute texts true) stack) world).state.1
    ≡ (ran "StepCreate" ∷ []) ++ map cleaned (still_cleaned mute texts true stack)
unfolding str_eq
clean_up-abort_example =
    clean_up-abort mute texts quiet true stack world ((λ s h. h), ((λ s h. h), tt)) refl

-- The provisioning step alone is cleaned up.
still_cleaned_names : still_cleaned mute texts true stack ≡ "StepProvision" ∷ []
unfolding str_eq
still_cleaned_names = refl

abbrev keys : List PromptEvent
keys = line (b'x' ∷ []) ∷ line (b'R' ∷ []) ∷ tick ∷ line (b'a' ∷ []) ∷ []

ask_run_total_example :
    (r : Option StepAction × Console Notes) × (ask_run mute texts 5
        (step_of "StepCreate")
        false
        (blank, keys)
      ≡ some r)
ask_run_total_example =
    ask_run_total mute texts 5 (step_of "StepCreate") false (blank, keys) (omega arith)

abbrev passing : Step Notes
passing = record {
  step_name = "StepCreate";
  inner_name = plain;
  run = λ done s. (some action_continue, s);
  cleanup = λ s. s;
}

-- The nil step between two others, of which the first continues.
wrap_steps-nil_example :
    Cut mute texts quiet 0 running
      (some passing ∷ [])
      (some (step_of "StepProvision") ∷ [])
      []
      (record { state = (blank, []); ctx_done = false; listening = true })
      (wrap_steps mute texts "abort")
wrap_steps-nil_example =
    wrap_steps-nil mute texts quiet 0 running (some passing ∷ [])
      (some (step_of "StepProvision") ∷ []) []
      (record { state = (blank, []); ctx_done = false; listening = true }) "abort" (inl refl)
