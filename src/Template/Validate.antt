-- ===== src/Template/Validate.antt =====
-- template/template.go: `Template.Validate`. Positions are counted from 1, as in the messages.
pub mod Accepts
use packer_plugin_sdk.Prelude.{
  ℕ, suc, Bool, true, false, Option, none, some, List, [], ◌∷◌, ◌++◌, map, String, if◌then◌else◌,
  is_nil, is_some, Map, lookup,
}
use packer_plugin_sdk.Template.Types.{OnlyExcept, Builder, Provisioner, PostProcessor, Template}
use packer_plugin_sdk.Template.OnlyExcept.{OnlyExceptError, validate}

pub data ValidateError : Type 0 where
  no_builder : ValidateError
  provisioner_setting : ℕ → OnlyExceptError → ValidateError
  override_missing : ℕ → String → ValidateError
  post_processor_setting : ℕ → ℕ → OnlyExceptError → ValidateError

module _ {V : Type 0} where
  unfoldable pub check_overrides : ℕ → Map V → Map (Builder V) → List ValidateError
  check_overrides i [] builders = []
  check_overrides i ((name, v) ∷ m) builders =
      let rest = check_overrides i m builders in
      if is_some (lookup name builders) then rest else override_missing i name ∷ rest

  unfoldable pub check_provisioners :
      ℕ → List (Provisioner V) → Map (Builder V) → List ValidateError
  check_provisioners i [] builders = []
  check_provisioners i (p ∷ ps) builders =
      map (provisioner_setting i) (validate p.only_except builders)
      ++ (check_overrides i p.override builders ++ check_provisioners (suc i) ps builders)

  unfoldable pub check_chain : ℕ → ℕ → List (PostProcessor V) → Map (Builder V) → List ValidateError
  check_chain i j [] builders = []
  check_chain i j (p ∷ ps) builders =
      map (post_processor_setting i j) (validate p.only_except builders)
      ++ check_chain i (suc j) ps builders

  unfoldable pub check_chains :
      ℕ → List (List (PostProcessor V)) → Map (Builder V) → List ValidateError
  check_chains i [] builders = []
  check_chains i (chain ∷ chains) builders =
      check_chain i 1 chain builders ++ check_chains (suc i) chains builders

  -- The errors of `Template.Validate`; none is success.
  unfoldable pub validate_template : Template V → List ValidateError
  validate_template t =
      (if is_nil t.builders then no_builder ∷ [] else [])
      ++ (check_provisioners 1 t.provisioners t.builders
          ++ check_chains 1 t.post_processors t.builders)
