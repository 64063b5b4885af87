-- ===== src/CommonSteps/Provision.antt =====
-- multistep/commonsteps/step_provision.go: the step that runs the provisioners, and the data for them.
pub mod Errors
mod Tests
use packer_plugin_sdk.Prelude.{
  ℕ, Bool, true, false, not, ◌&&◌, Option, none, some, List, [], ◌∷◌, String, if◌then◌else◌, ℤ,
  join, str_eq, is_some, Map, insert,
}
use packer_plugin_sdk.Multistep.StateBag.{Value, StateBag, is_set, state_cancelled}
use packer_plugin_sdk.Multistep.Step.{StepAction, action_continue, action_halt}
use packer_plugin_sdk.CommonSteps.Ui.{Ui}
use packer_plugin_sdk.Communicator.Config.{Config, port, host, user, password}

-- The values of the data, with those of the bag and of the language among them, and what the type
-- assertions on values of the bag give, which is none where they panic.
pub record HookValues (V : Type 0) : Type 0 where
  pub of_value : Value → V
  pub of_text : String → V
  pub of_bytes : List ℕ → V
  pub of_bool : Bool → V
  pub of_int : ℤ → V
  pub as_map : Value → Option (Map V)
  pub as_text : Value → Option String
  pub as_int : Value → Option ℤ
  pub as_config : Value → Option Config
  pub is_hook : Value → Bool
  pub is_ui : Value → Bool
  pub to_value : Map V → Value
  pub itoa : ℤ → String
  pub run_uuid : String

-- What happens while the step waits: the hook ends, with an error or none; the context is done; a second
-- is over; or the hook or another goroutine changes the state.
pub data HookEvent (S : Type 0) : Type 0 where
  ended : Option String → HookEvent S
  interrupted second_over : HookEvent S
  changed : (S → S) → HookEvent S

-- The action of the step, a panic, or a loop that is not over when the events are.
pub data Hooked (S : Type 0) : Type 0 where
  acted : StepAction → S → Hooked S
  panicked still : S → Hooked S

module _ {S V : Type 0} (bag : StateBag S) (values : HookValues V) where
  abbrev initial_data : S → Option (Map V)
  initial_data s = elim (bag.get_ok "generated_data" s) [
    | none ↦ some []
    | some v ↦ values.as_map v
  ]

  abbrev not_implemented : Map V → Map V
  not_implemented d =
      insert "PackerHTTPAddr" (values.of_text "ERR_HTTP_ADDR_NOT_IMPLEMENTED_BY_BUILDER") (
        insert "PackerHTTPPort" (values.of_text "ERR_HTTP_PORT_NOT_IMPLEMENTED_BY_BUILDER")
          (insert "PackerHTTPIP" (values.of_text "ERR_HTTP_IP_NOT_IMPLEMENTED_BY_BUILDER") d))

  abbrev with_id : S → Map V → Map V
  with_id s d =
      let d' = insert "ID" (values.of_text "ERR_ID_NOT_IMPLEMENTED_BY_BUILDER") d in
      elim (bag.get_ok "instance_id" s) [ none ↦ d' | some v ↦ insert "ID" (values.of_value v) d' ]

  -- The address and the port of the HTTP server. An assertion that fails is a panic, which is none.
  unfoldable pub with_http : S → Map V → Option (Map V)
  with_http s d = elim (bag.get_ok "http_port" s) [
    | none ↦ elim (bag.get_ok "http_ip" s) [
      | none ↦ some d
      | some ip ↦ elim (values.as_text ip) [
        | none ↦ none
        | some a ↦ some (insert "PackerHTTPIP" (values.of_text a) d)
      ]
    ]
    | some number ↦ elim (values.as_int number) [
      | none ↦ none
      | some n ↦
          let d' = insert "PackerHTTPPort" (values.of_text (values.itoa n)) d in
          elim (bag.get_ok "http_ip" s) [
            | none ↦ some d'
            | some ip ↦ elim (values.as_text ip) [
              | none ↦ none
              | some a ↦ some (
                  insert "PackerHTTPAddr" (values.of_text (join a (join ":" (values.itoa n))))
                    (insert "PackerHTTPIP" (values.of_text a) d'))
            ]
          ]
    ]
  ]

  -- The settings of the communicator.
  unfoldable pub with_communicator : Config → Map V → Map V
  with_communicator c d = insert "WinRMPassword" (values.of_text c.winrm.winrm_password) (
      insert "SSHAgentAuth" (values.of_bool c.ssh.ssh_agent_auth) (
        insert "SSHPrivateKeyFile" (values.of_text c.ssh.ssh_private_key_file) (
          insert "SSHPrivateKey" (values.of_bytes c.ssh.ssh_private_key) (
            insert "SSHPublicKey" (values.of_bytes c.ssh.ssh_public_key) (
              insert "ConnType" (values.of_text c.kind) (
                insert "Password" (values.of_text (password c)) (
                  insert "User" (values.of_text (user c)) (
                    insert "Port" (values.of_int (port c))
                      (insert "Host" (values.of_text (host c)) d)))))))))

  -- `PopulateProvisionHookData`
  unfoldable pub populate_provision_hook_data : S → Option (Map V)
  populate_provision_hook_data s = elim (initial_data s) [
    | none ↦ none
    | some d ↦
        elim (with_http s (
          not_implemented
            (insert "PackerRunUUID" (values.of_text values.run_uuid) (with_id s d)))) [
              | none ↦ none
              | some d' ↦ elim (bag.get_ok "communicator_config" s) [
                | none ↦ some d'
                | some v ↦ elim (values.as_config v) [
                  | none ↦ none
                  | some c ↦ some (with_communicator c d')
                ]
              ]
            ]
  ]

  -- The type assertion on the value of a key; a key that is not in the bag reads as nil.
  abbrev asserts : (Value → Bool) → String → S → Bool
  asserts is k s = elim (bag.get_ok k s) [ none ↦ false | some v ↦ is v ]

  -- The bag has a hook and a user interface.
  abbrev pub has_hook_and_ui : S → Bool
  has_hook_and_ui s = asserts values.is_hook "hook" s && asserts values.is_ui "ui" s

  -- `launch` starts the goroutine of the hook, with its type and its data.
  module _ (ui : Ui S bag) (launch : String → Map V → S → S) where
    abbrev put_error : String → S → S
    put_error e s = bag.put "error" (Value.error e) s

    -- The end of the hook with an error; in a clean-up it is added to the error in the bag.
    unfoldable pub hook_failed : Bool → String → S → Hooked S
    hook_failed false e s = acted action_halt (put_error e s)
    hook_failed true e s = elim (bag.get_ok "error" s) [
      | none ↦ panicked s
      | some (Value.error original) ↦ acted action_halt (
          put_error
            (join "Cleanup failed: " (join e (join ". Original Provisioning error: " original))) s)
      | some _ ↦ panicked s
    ]

    -- The loop of `runWithHook`; the context of a clean-up is never done.
    unfoldable pub await_hook : Bool → List (HookEvent S) → S → Hooked S
    await_hook cleanup [] s = still s
    await_hook cleanup (ended none ∷ es) s = acted action_continue s
    await_hook cleanup (ended (some e) ∷ es) s = hook_failed cleanup e s
    await_hook cleanup (interrupted ∷ es) s =
        let rest = await_hook cleanup es s in if cleanup then rest else acted action_halt s
    await_hook cleanup (second_over ∷ es) s =
        let rest = await_hook cleanup es s in
        if is_set bag state_cancelled s then acted action_halt s else rest
    await_hook cleanup (changed f ∷ es) s = await_hook cleanup es (f s)

    abbrev hook_type : Bool → String
    hook_type cleanup = if cleanup then "packer_cleanup_provision" else "packer_provision"

    -- `runWithHook` behind the type assertions on the hook and the user interface.
    unfoldable pub with_hook : Bool → List (HookEvent S) → S → Hooked S
    with_hook cleanup es s = elim (populate_provision_hook_data s) [
      | none ↦ panicked s
      | some d ↦
          let kept = bag.put "generated_data" (values.to_value d) s in
          let said =
            (if cleanup
              then ui.say
                  "Provisioning step had errors: Running the cleanup provisioner, if present..."
                  kept
              else kept) in
          await_hook cleanup es (launch (hook_type cleanup) d said)
    ]

    -- `runWithHook`
    unfoldable pub run_with_hook : Bool → List (HookEvent S) → S → Hooked S
    run_with_hook cleanup es s =
        let hooked = with_hook cleanup es s in if has_hook_and_ui s then hooked else panicked s

    -- `StepProvision.Run`
    abbrev pub provision_run : List (HookEvent S) → S → Hooked S
    provision_run = run_with_hook false

    -- `StepProvision.Cleanup`, which drops the action.
    unfoldable pub provision_cleanup : List (HookEvent S) → S → Hooked S
    provision_cleanup es s =
        if is_set bag "error" s then run_with_hook true es s else acted action_continue s
