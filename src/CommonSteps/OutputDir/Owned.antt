-- ===== src/CommonSteps/OutputDir/Owned.antt =====
-- Which directory the clean-up may delete.
use packer_plugin_sdk.Prelude.{◌≡◌, true, false, arith, ◌⊎◌}
use packer_plugin_sdk.Multistep.StateBag.{StateBag}
use packer_plugin_sdk.Multistep.Step.{action_halt}
use packer_plugin_sdk.CommonSteps.Ui.{Ui}
use packer_plugin_sdk.CommonSteps.OutputDir.{
  StepOutputDir, Directories, make, output_dir_run, output_dir_cleanup,
}

module _ {S : Type 0} (bag : StateBag S) (ui : Ui S bag) (dirs : Directories S) where
  -- A fresh step that meets a directory that it may not delete halts, and whatever happens after that its
  -- clean-up leaves the state alone.
  pub output_dir_cleanup-refused :
      (step : StepOutputDir) (s t : S)
      → step.cleanup ≡ false
      → step.force ≡ false
      → dirs.exists step.path s ≡ true
      → ((output_dir_run bag ui dirs step s).0 ≡ action_halt)
        × (output_dir_cleanup bag ui dirs (output_dir_run bag ui dirs step s).1 t ≡ t)
  unfolding output_dir_run output_dir_cleanup
  output_dir_cleanup-refused step s t fresh force there = ground (arith, fresh, force, there)

  -- In every other case the step is marked for its clean-up, also if making the directory fails.
  pub output_dir_run-marked :
      (step : StepOutputDir) (s : S)
      → (step.force ≡ true) ⊎ (dirs.exists step.path s ≡ false)
      → (output_dir_run bag ui dirs step s).1.cleanup ≡ true
  unfolding output_dir_run make
  output_dir_run-marked step s h = ground (arith, h)
