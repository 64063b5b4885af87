-- ===== src/CommonSteps/Provision/Tests.antt =====
-- Provisioning at concrete inputs.
use packer_plugin_sdk.Prelude.{
  ◌≡◌, refl, ◌⊎◌, true, false, Option, none, some, List, [], ◌∷◌, String, if◌then◌else◌, str_eq,
  lookup, insert, pos, ◌||◌,
}
use packer_plugin_sdk.Multistep.StateBag.{Value, StateBag}
use packer_plugin_sdk.CommonSteps.Ui.{Ui}
use packer_plugin_sdk.CommonSteps.Provision.{
  HookValues, HookEvent, ended, changed, second_over, populate_provision_hook_data, with_http,
  provision_cleanup, has_hook_and_ui,
}
use packer_plugin_sdk.CommonSteps.Provision.Errors.{Kept, provision_cleanup-Kept}

abbrev Notes : Type 0
Notes = String → Option Value

abbrev notes : StateBag Notes
notes = record {
  get_ok = λ k s. s k;
  put = λ k v s j. if str_eq k j then some v else s j;
  remove = λ k s j. if str_eq k j then none else s j;
  get_ok-put = λ k j v s. refl;
  get_ok-remove = λ k j s. refl;
}

abbrev mute : Ui Notes notes
mute = record {
  error = λ m s. s;
  say = λ m s. s;
  get_ok-error = λ k m s. refl;
  get_ok-say = λ k m s. refl;
}

-- Data that only holds texts.
abbrev texts : HookValues String
texts = record {
  of_value = λ v. "value";
  of_text = λ s. s;
  of_bytes = λ bs. "bytes";
  of_bool = λ b. "bool";
  of_int = λ n. "int";
  as_map = λ v. none;
  as_text = λ v. some "10.0.0.2";
  as_int = λ v. some (pos 8080);
  as_config = λ v. none;
  is_hook = λ v. true;
  is_ui = λ v. true;
  to_value = λ d. Value.other 0;
  itoa = λ n. "8080";
  run_uuid = "b9e0";
}

abbrev broken : Notes
broken j =
    if str_eq "error" j
    then some (Value.error "exit status 1")
    else if str_eq "hook" j || str_eq "ui" j
    then some (Value.other 2)
    else none

abbrev events : List (HookEvent Notes)
events = changed (λ s. s) ∷ second_over ∷ ended (some "no such host") ∷ []

provision_cleanup-Kept_example :
    Kept notes texts mute
      (λ name d s. s)
      ((has_hook_and_ui notes texts broken ≡ false)
        ⊎ (populate_provision_hook_data notes texts broken ≡ none))
      "exit status 1"
      (provision_cleanup notes texts mute (λ name d s. s) events broken)
unfolding str_eq
provision_cleanup-Kept_example =
    provision_cleanup-Kept notes texts mute (λ name d s. s) "exit status 1" events broken
      (λ name d t. refl) ((λ t. refl), (tt, (tt, tt))) refl

-- The address of a server is made of the two that the bag has.
abbrev serving : Notes
serving j = if str_eq "http_ip" j || str_eq "http_port" j then some (Value.other 1) else none

http_address :
    (elim (populate_provision_hook_data notes texts serving) [
      | none ↦ none
      | some d ↦ lookup "PackerHTTPAddr" d
    ])
    ≡ some "10.0.0.2:8080"
unfolding populate_provision_hook_data with_http lookup insert str_eq
http_address = refl
