-- ===== src/CommonSteps/OutputDir.antt =====
-- multistep/commonsteps/step_output_dir.go: the step that makes the directory for the artifacts.
pub mod Owned
use packer_plugin_sdk.Prelude.{
  ℕ, zero, suc, Bool, true, false, not, ◌&&◌, ◌||◌, Option, none, some, String, if◌then◌else◌, join,
  is_some,
}
use packer_plugin_sdk.Multistep.StateBag.{Value, StateBag, is_set, state_cancelled, state_halted}
use packer_plugin_sdk.Multistep.Step.{StepAction, action_continue, action_halt}
use packer_plugin_sdk.CommonSteps.Ui.{Ui}

-- `StepOutputDir`
pub record StepOutputDir : Type 0 where
  pub force : Bool
  pub path : String
  pub cleanup : Bool

-- Directories, which lie beside the bag: the writes of a file to a directory and its removal are one.
pub record Directories (S : Type 0) : Type 0 where
  pub exists : String → S → Bool
  pub remove_all : String → S → Option String × S
  pub mkdir_all : String → S → Option String × S
  pub check_write : String → S → Option String × S

module _ {S : Type 0} (bag : StateBag S) (ui : Ui S bag) (dirs : Directories S) where
  abbrev put_error : String → S → S
  put_error e s = bag.put "error" (Value.error e) s

  -- From the flag for the clean-up on.
  unfoldable pub make : StepOutputDir → S → StepAction × StepOutputDir × S
  make step s =
      let step' = record step { cleanup = true } in
      let (made, s') = dirs.mkdir_all step.path s in
      elim made [
        | some e ↦ (action_halt, step', put_error e s')
        | none ↦
            let (written, t) = dirs.check_write step.path s' in
            elim written [
              | some e ↦
                  (action_halt, step', put_error (join "Couldn't write to output directory: " e) t)
              | none ↦ (action_continue, step', t)
            ]
      ]

  -- `StepOutputDir.Run`
  unfoldable pub output_dir_run : StepOutputDir → S → StepAction × StepOutputDir × S
  output_dir_run step s =
      if not (dirs.exists step.path s)
      then make step s
      else if not step.force
      then (
        action_halt,
        step,
        put_error
            (join "Output directory exists: "
              (join step.path "\n\nUse the force flag to delete it prior to building."))
            s,
      )
      else make step
          (dirs.remove_all step.path (ui.say "Deleting previous output directory..." s)).1

  -- At most so many tries.
  unfoldable pub remove_tries : ℕ → String → S → S
  remove_tries zero path s = s
  remove_tries (suc n) path s =
      let (result, s') = dirs.remove_all path s in
      let rest = remove_tries n path s' in elim result [ none ↦ s' | some e ↦ rest ]

  -- `StepOutputDir.Cleanup`
  unfoldable pub output_dir_cleanup : StepOutputDir → S → S
  output_dir_cleanup step s =
      if step.cleanup && (is_set bag state_cancelled s || is_set bag state_halted s)
      then remove_tries 5 step.path (ui.say "Deleting output directory..." s)
      else s
