-- ===== src/Communicator/StepConnect/Chosen.antt =====
-- Which step a connection runs, and cleans up.
use packer_plugin_sdk.Prelude.{
  ◌≡◌, refl, ◌↔◌, ◌⊎◌, Option, str_eq, if◌then◌else◌, false, none, some, [], ◌∷◌, String, ℤ,
  is_positive, arith, Map, lookup, lookup-insert, join,
}
use packer_plugin_sdk.Multistep.StateBag.{Value, StateBag}
use packer_plugin_sdk.Multistep.Step.{StepAction, action_continue, Step}
use packer_plugin_sdk.CommonSteps.Ui.{Ui}
use packer_plugin_sdk.Communicator.StepConnect.{
  StepConnect, Times, overlay, built_in, type_map, announce, run_substep, run_entry, connect_run,
  connect_cleanup, chosen,
}

lookup-overlay :
    {V : Type 0} (k : String) (kvs m : Map V)
    → lookup k (overlay kvs m) ≡ (elim (lookup k kvs) [ none ↦ lookup k m | some v ↦ some v ])
unfolding overlay lookup
lookup-overlay k [] m = refl
lookup-overlay k ((j, v) ∷ kvs) m =
    ground (arith, lookup-insert j k v (overlay kvs m), lookup-overlay k kvs m)

module _ {S : Type 0} where
  -- The step for the type of the communicator: a custom connector of that type, whatever it is, and else
  -- the one of SSH or of WinRM. The type none has a nil step, and another type has no entry.
  abbrev pub connector : StepConnect S → Option (Option (Step S))
  connector c = elim (lookup c.config.kind c.custom_connect) [
    | some entry ↦ some entry
    | none ↦
        if str_eq "none" c.config.kind
        then some none
        else if str_eq "ssh" c.config.kind
        then some (some c.ssh)
        else if str_eq "winrm" c.config.kind
        then some (some c.winrm)
        else none
  ]

  lookup-type_map : (c : StepConnect S) → lookup c.config.kind (type_map c) ≡ connector c
  unfolding type_map lookup
  lookup-type_map c = ground (arith, lookup-overlay c.config.kind c.custom_connect (built_in c))

  -- What the clean-up of an entry does.
  abbrev pub cleaned : Option (Option (Step S)) → S → S
  cleaned (some (some step)) t = step.cleanup t
  cleaned _ t = t

module _ {S : Type 0} (bag : StateBag S) (ui : Ui S bag) (no_comm settings : Value)
    (show : ℤ → String) where
  -- With a step, that step continues; and if there is a pause, the context is not done in it and the step
  -- continues again, on the state that the first run has left.
  abbrev pub Continues : StepConnect S → Times → S → Option (Option (Step S)) → Type 0
  Continues c times s none = ⊥
  Continues c times s (some none) = Unit
  Continues c times s (some (some step)) =
      let first = step.run times.at_start (announce bag ui no_comm settings show c s) in
      let message =
        join "Pausing " (join (show c.config.pause_before_connect) " before connecting...") in
      (first.0 ≡ some action_continue)
      × ((is_positive c.config.pause_before_connect ≡ false)
          ⊎ ((times.in_pause ≡ false)
              × ((step.run times.after_pause (ui.say message first.1)).0 ≡ some action_continue)))

  run_entry-Continues :
      (c : StepConnect S) (entry : Option (Option (Step S))) (times : Times) (s : S)
      → ((run_entry bag ui no_comm settings show c entry times s).0 ≡ some action_continue)
        ↔ Continues c times s entry
  unfolding run_entry run_substep
  run_entry-Continues c none times s = (λ h. cc, λ h. absurd h)
  run_entry-Continues c (some none) times s = (λ h. tt, λ h. refl)
  run_entry-Continues c (some (some step)) times s = (λ h. ground arith, λ h. ground arith)

  cleanup-cleaned :
      (action : Option StepAction) (s : S) (entry : Option (Option (Step S))) (t : S)
      → connect_cleanup bag ui no_comm settings show
          (record {
            action = action;
            state = s;
            substep = chosen bag ui no_comm settings show entry;
          })
          t
        ≡ cleaned entry t
  unfolding connect_cleanup
  cleanup-cleaned action s none t = refl
  cleanup-cleaned action s (some none) t = refl
  cleanup-cleaned action s (some (some step)) t = refl

  -- For every type of communicator: the connection continues exactly if the step for that type, with its
  -- pause, lets it, and that step is the one that is cleaned up, also if it has panicked or halted. The
  -- type none continues with no step and a type that is not known does not.
  pub connect_run-connector :
      (c : StepConnect S) (times : Times) (s t : S)
      → let r = connect_run bag ui no_comm settings show c times s in
        (connect_cleanup bag ui no_comm settings show r t ≡ cleaned (connector c) t)
        × ((r.action ≡ some action_continue) ↔ Continues c times s (connector c))
  unfolding connect_run
  connect_run-connector c times s t =
      rw (lookup-type_map c)
        (cleanup-cleaned _ _ (connector c) t, run_entry-Continues c (connector c) times s)
