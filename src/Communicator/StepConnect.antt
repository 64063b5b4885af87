-- ===== src/Communicator/StepConnect.antt =====
-- communicator/step_connect.go: the step that connects by the step of its communicator's type, and
-- communicator/comm_host.go.
pub mod Chosen
use packer_plugin_sdk.Prelude.{
  Result, failed, got, ℕ, Bool, true, false, Option, none, some, List, [], ◌∷◌, String,
  if◌then◌else◌, ℤ, is_positive, join, Map, lookup, insert, str_eq,
}
use packer_plugin_sdk.Multistep.StateBag.{Value, StateBag}
use packer_plugin_sdk.Multistep.Step.{StepAction, action_continue, action_halt, Step}
use packer_plugin_sdk.CommonSteps.Ui.{Ui}
use packer_plugin_sdk.Communicator.Config.{Config, is_empty}

-- `StepConnect`. `host` is the callback `Host`; `ssh` and `winrm` are the steps that `Run` makes of the
-- other callbacks; a nil step is none.
pub record StepConnect (S : Type 0) : Type 0 where
  pub config : Config
  pub host : S → Result String × S
  pub ssh : Step S
  pub winrm : Step S
  pub custom_connect : Map (Option (Step S))

-- Whether the context is done: when `Run` starts, while it pauses, and after that.
pub record Times : Type 0 where
  pub at_start : Bool
  pub in_pause : Bool
  pub after_pause : Bool

-- The action, which is none if a step panics, the state, and the field `substep`.
pub record Connection (S : Type 0) : Type 0 where
  pub action : Option StepAction
  pub state : S
  pub substep : Option (Step S)

-- The entries of a map put over those of another.
unfoldable pub overlay : {V : Type 0} → Map V → Map V → Map V
overlay [] m = m
overlay ((k, v) ∷ kvs) m = insert k v (overlay kvs m)

module _ {S : Type 0} where
  abbrev pub built_in : StepConnect S → Map (Option (Step S))
  built_in c = ("none", none) ∷ ("ssh", some c.ssh) ∷ ("winrm", some c.winrm) ∷ []

  unfoldable pub type_map : StepConnect S → Map (Option (Step S))
  type_map c = overlay c.custom_connect (built_in c)

-- The communicator of type none, the settings as the bag has them, and the text of a duration.
module _ {S : Type 0} (bag : StateBag S) (ui : Ui S bag) (no_comm settings : Value)
    (show : ℤ → String) where
  abbrev pub address_message : String → String → String
  address_message kind host =
      if str_eq kind "ssh"
      then join "Using SSH communicator to connect: " host
      else if str_eq kind "winrm"
      then join "Using WinRM communicator to connect: " host
      else join "Using " (join kind (join " communicator to connect: " host))

  unfoldable pub announce : StepConnect S → S → S
  announce c s =
      let (result, s') = c.host s in
      elim result [ failed e ↦ s' | got host ↦ ui.say (address_message c.config.kind host) s' ]

  abbrev finish : S → Option StepAction × S
  finish s = (some action_continue, bag.put "communicator_config" settings s)

  -- What follows a run of the substep: a panic or a halt ends the step.
  abbrev and_then : Option StepAction × S → (S → Option StepAction × S) → Option StepAction × S
  and_then r k = elim r.0 [
    | none ↦ (none, r.1)
    | some a ↦ elim a [ action_halt ↦ (some action_halt, r.1) | action_continue ↦ k r.1 ]
  ]

  -- From the first run of the substep on.
  unfoldable pub run_substep : ℤ → Step S → Times → S → Option StepAction × S
  run_substep pause step times s = and_then (step.run times.at_start s) (λ s'.
      if is_positive pause
      then (let t = ui.say (join "Pausing " (join (show pause) " before connecting...")) s' in
          if times.in_pause
          then (some action_halt, t)
          else and_then (step.run times.after_pause t) finish)
      else finish s')

  -- `StepConnect.Run`, by the entry of the type map.
  unfoldable pub run_entry :
      StepConnect S → Option (Option (Step S)) → Times → S → Option StepAction × S
  run_entry c none times s = (
    some action_halt,
    bag.put "error" (Value.error (join "unknown communicator type: " c.config.kind)) s,
  )
  run_entry c (some none) times s = (some action_continue, bag.put "communicator" no_comm s)
  run_entry c (some (some step)) times s =
      run_substep c.config.pause_before_connect step times (announce c s)

  abbrev chosen : Option (Option (Step S)) → Option (Step S)
  chosen none = none
  chosen (some step) = step

  unfoldable pub connect_run : StepConnect S → Times → S → Connection S
  connect_run c times s =
      let entry = lookup c.config.kind (type_map c) in
      let r = run_entry c entry times s in
      record { action = r.0; state = r.1; substep = chosen entry }

  -- `StepConnect.Cleanup`
  unfoldable pub connect_cleanup : Connection S → S → S
  connect_cleanup r s = elim r.substep [ none ↦ s | some step ↦ step.cleanup s ]

  -- `CommHost`, whose function asks the bag if no host is given; `string` is the type assertion.
  unfoldable pub comm_host : (Value → Option String) → String → String → S → Result String
  comm_host string host key s =
      if is_empty host
      then (elim (bag.get_ok key s) [
        | none ↦ failed "Failed to retrieve IP address."
        | some v ↦ elim (string v) [
          | none ↦ failed "Failed to retrieve IP address."
          | some address ↦ got address
        ]
      ])
      else got host
