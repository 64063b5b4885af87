-- ===== src/Multistep/Step.antt =====
-- multistep/multistep.go and multistep/if.go: steps and their actions.
use packer_plugin_sdk.Prelude.{Bool, Option, some, String, if◌then◌else◌, not}

pub data StepAction : Type 0 where
  action_continue action_halt : StepAction

-- What the debug runner learns from a step: it is no `StepWrapper`; or its `InnerStepName` returns a
-- name, or panics.
pub data InnerName : Type 0 where
  plain nameless : InnerName
  wraps : String → InnerName

-- A `Step` over the state `S`. `run` is given whether the context is done; `none` in place of an
-- action is a panic. `step_name` is the name of its type.
pub record Step (S : Type 0) : Type 0 where
  pub step_name : String
  pub inner_name : InnerName
  pub run : Bool → S → Option StepAction × S
  pub cleanup : S → S

abbrev pub null_step : {S : Type 0} → Step S
null_step = record {
  step_name = "nullStep";
  inner_name = plain;
  run = λ done s. (some action_continue, s);
  cleanup = λ s. s;
}

-- `If`
abbrev pub step_if : {S : Type 0} → Bool → Step S → Step S
step_if on step = if not on then null_step else step
