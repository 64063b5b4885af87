-- ===== src/Communicator/Steps.antt =====
-- The steps that wait for a connection: `Run` of communicator/step_connect_ssh.go and of
-- communicator/step_connect_winrm.go. The wait itself is a goroutine beside them.
pub mod Settled
use packer_plugin_sdk.Prelude.{
  Result, failed, got, ℕ, Bool, true, false, List, [], ◌∷◌, String, if◌then◌else◌, ℤ, is_positive,
  join,
}
use packer_plugin_sdk.Multistep.StateBag.{Value, StateBag}
use packer_plugin_sdk.Multistep.Step.{StepAction, action_continue, action_halt}
use packer_plugin_sdk.CommonSteps.Ui.{Ui}

-- What `select` meets next: the wait is over, with a communicator or an error; the time is up; the
-- context is done; or a second passes, in which other goroutines may change the state.
pub data WaitEvent (S : Type 0) : Type 0 where
  finished : Result ℕ → WaitEvent S
  timeout interrupted : WaitEvent S
  elapsed : (S → S) → WaitEvent S

-- The action that the step returns; or it is still in its loop when the events are over.
pub data Ran (S : Type 0) : Type 0 where
  acted : StepAction → S → Ran S
  still : S → Ran S

module _ {S : Type 0} (bag : StateBag S) (ui : Ui S bag) where
  abbrev pub put_error : String → S → S
  put_error e s = bag.put "error" (Value.error e) s

  abbrev pub connect : String → ℕ → S → Ran S
  connect message comm s =
      acted action_continue (bag.put "communicator" (Value.other comm) (ui.say message s))

  -- `StepConnectSSH.Run`. With a timeout that is not positive the channel never fires.
  unfoldable pub ssh_run : ℤ → List (WaitEvent S) → S → Ran S
  ssh_run limit [] s = still s
  ssh_run limit (finished (got comm) ∷ es) s = connect "Connected to SSH!" comm s
  ssh_run limit (finished (failed e) ∷ es) s =
      acted action_halt (put_error e (ui.error (join "Error waiting for SSH: " e) s))
  ssh_run limit (timeout ∷ es) s =
      let rest = ssh_run limit es s in
      if is_positive limit
      then acted action_halt
          (ui.error "Timeout waiting for SSH." (put_error "Timeout waiting for SSH." s))
      else rest
  ssh_run limit (interrupted ∷ es) s = acted action_halt s
  ssh_run limit (elapsed f ∷ es) s = ssh_run limit es (f s)

  -- `StepConnectWinRM.Run`
  unfoldable pub winrm_run : List (WaitEvent S) → S → Ran S
  winrm_run [] s = still s
  winrm_run (finished (got comm) ∷ es) s = connect "Connected to WinRM!" comm s
  winrm_run (finished (failed e) ∷ es) s =
      acted action_halt (ui.error (join "Error waiting for WinRM: " e) s)
  winrm_run (timeout ∷ es) s =
      acted action_halt
        (ui.error "Timeout waiting for WinRM." (put_error "Timeout waiting for WinRM." s))
  winrm_run (interrupted ∷ es) s = acted action_halt s
  winrm_run (elapsed f ∷ es) s = winrm_run es (f s)
