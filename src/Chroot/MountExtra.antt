-- ===== src/Chroot/MountExtra.antt =====
-- chroot/step_mount_extra.go: the step that mounts additional paths, and their removal.
pub mod Stack
use packer_plugin_sdk.Prelude.{
  Result, failed, got, ℕ, Bool, true, false, Option, none, some, List, [], ◌∷◌, String,
  if◌then◌else◌, join, ◌==◌, str_eq,
}
use packer_plugin_sdk.Multistep.StateBag.{Value, StateBag}
use packer_plugin_sdk.Multistep.Step.{StepAction, action_continue, action_halt}
use packer_plugin_sdk.CommonSteps.Ui.{Ui}

-- One entry of `ChrootMounts`: the file system, the device, and the path in the chroot.
pub record Mount : Type 0 where
  pub filesystem : String
  pub device : String
  pub path : String

-- How a command ends; a failure has its error, and what it wrote to its stderr.
pub data Ran : Type 0 where
  ran : Ran
  exited : ℕ → String → String → Ran
  not_run : String → String → Ran

-- The wrapper of commands, the shell, the making of directories, and `ui.Message`.
pub record Shell (S : Type 0) : Type 0 where
  pub wrapped_command : String → Result String
  pub mkdir_all : String → S → Option String × S
  pub command : String → S → Ran × S
  pub message : String → S → S

abbrev pub flags : Mount → String
flags m = if str_eq m.filesystem "bind" then "--bind" else join "-t " m.filesystem

abbrev failure : String → Ran → Option String
failure what Ran.ran = none
failure what (exited n e stderr) = some (join what (join e (join "\nStderr: " stderr)))
failure what (not_run e stderr) = some (join what (join e (join "\nStderr: " stderr)))

-- The status 1 of grep, for a path that is not mounted.
abbrev is_absent : Ran → Bool
is_absent (exited n e stderr) = n == 1
is_absent _ = false

module _ {S : Type 0} {bag : StateBag S} (ui : Ui S bag) (shell : Shell S) where
  abbrev halt : String → S → StepAction × S
  halt e s = (action_halt, ui.error e (bag.put "error" (Value.error e) s))

  abbrev inner_path : String → Mount → String
  inner_path mount_path m = join mount_path m.path

  -- One mount: its error, if there is one.
  unfoldable pub mount_one : String → Mount → S → Option String × S
  mount_one mount_path m s =
      let (made, s') = shell.mkdir_all (inner_path mount_path m) s in
      elim made [
        | some e ↦ (some (join "Error creating mount directory: " e), s')
        | none ↦
            let said = shell.message (join "Mounting: " m.path) s' in
            elim (shell.wrapped_command (
              join "mount "
                (join (flags m) (join " " (join m.device (join " " (inner_path mount_path m))))))) [
                  | failed e ↦ (some (join "Error creating mount command: " e), said)
                  | got command ↦
                      let (result, t) = shell.command command said in
                      (failure "Error mounting: " result, t)
                ]
      ]

  -- The loop of `Run`, with the mounts so far, the last one first.
  unfoldable pub mount_all : String → List Mount → List String → S → (StepAction × S) × List String
  mount_all mount_path [] mounts s = ((action_continue, s), mounts)
  mount_all mount_path (m ∷ ms) mounts s =
      let (result, s') = mount_one mount_path m s in
      elim result [
        | some e ↦ (halt e s', mounts)
        | none ↦ mount_all mount_path ms (inner_path mount_path m ∷ mounts) s'
      ]

  -- `StepMountExtra.Run`: the mounts that it leaves, and the bag, which gets the step if it continues.
  unfoldable pub mount_run : Value → String → List Mount → S → (StepAction × S) × List String
  mount_run step mount_path ms s =
      let ((action, s'), mounts) =
        mount_all mount_path ms [] (ui.say "Mounting additional paths within the chroot..." s) in
      elim action [
        | action_continue ↦ ((action_continue, bag.put "mount_extra_cleanup" step s'), mounts)
        | action_halt ↦ ((action_halt, s'), mounts)
      ]

  -- One path of `CleanupFunc`, which is taken off the mounts before anything is tried.
  unfoldable pub unmount_one : String → S → Option String × S
  unmount_one path s = elim (shell.wrapped_command (join "grep " (join path " /proc/mounts"))) [
    | failed e ↦ (some (join "Error creating grep command: " e), s)
    | got grep ↦
        let (found, s') = shell.command grep s in
        if is_absent found then (none, s') else elim (shell.wrapped_command (join "umount " path)) [
          | failed e ↦ (some (join "Error creating unmount command: " e), s')
          | got umount ↦
              let (result, t) = shell.command umount s' in
              (failure "Error unmounting device: " result, t)
        ]
  ]

  -- `CleanupFunc`: the error, the mounts that are left, and the state.
  unfoldable pub cleanup_func : List String → S → Option String × List String × S
  cleanup_func [] s = (none, [], s)
  cleanup_func (path ∷ paths) s =
      let (result, s') = unmount_one path s in
      let rest = cleanup_func paths s' in elim result [ some e ↦ (some e, paths, s') | none ↦ rest ]

  -- `StepMountExtra.Cleanup`
  unfoldable pub mount_cleanup : List String → S → List String × S
  mount_cleanup mounts s =
      let (result, left, s') = cleanup_func mounts s in
      elim result [ some e ↦ (left, ui.error e s') | none ↦ (left, s') ]
