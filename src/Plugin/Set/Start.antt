-- ===== src/Plugin/Set/Start.antt =====
-- What is registered is what is started.
use packer_plugin_sdk.Prelude.{
  ◌≡◌, Option, none, some, List, [], ◌∷◌, String, arith, str_eq, str_eq_refl, lookup-insert,
}
use packer_plugin_sdk.Plugin.Set.{
  Set, Registered, a_builder, serve, register, register_builder, start, run_command,
}

module _ {B P R D : Type 0} (show : List String → String) (quote : String → String)
    (sort : List String → List String) where
  -- A builder that was registered is what the command to start it serves, if the server has no error and
  -- takes it.
  pub run_command-register_builder :
      (name : String) (b : B) (s t : Set B P R D)
      (register_error : Registered B P R D → Option String)
      → register_builder name b s ≡ some t
      → register_error (a_builder (some b)) ≡ none
      → run_command show quote sort none register_error ("start" ∷ "builder" ∷ name ∷ []) t
        ≡ serve (a_builder (some b))
  unfolding run_command start register_builder register str_eq
  run_command-register_builder name b s t register_error h ok =
      ground (arith, h, ok, lookup-insert name name b s.builders, str_eq_refl name)
