-- ===== src/Template/OnlyExcept.antt =====
-- template/template.go: the `only` and `except` settings of a provisioner or a post-processor.
pub mod Laws
use packer_plugin_sdk.Prelude.{
  ◌≡◌, ◌↔◌, ◌⊎◌, inl, inr, Bool, true, false, not, ◌&&◌, Option, none, some, List, [], ◌∷◌, ◌++◌,
  String, if◌then◌else◌, elem, is_nil, is_some, Map, lookup, arith, Bool-cases,
}
use packer_plugin_sdk.Template.Types.{OnlyExcept, Builder}

pub data OnlyExceptError : Type 0 where
  both_specified : OnlyExceptError
  only_not_found except_not_found : String → OnlyExceptError

-- `OnlyExcept.Skip`
unfoldable pub skip : OnlyExcept → String → Bool
skip o n =
    if not (is_nil o.only)
    then not (elem n o.only)
    else if not (is_nil o.except)
    then elem n o.except
    else false

module _ {V : Type 0} where
  -- The error for every name with no builder.
  abbrev pub missing :
      (String → OnlyExceptError) → List String → Map (Builder V) → List OnlyExceptError
  missing error [] builders = []
  missing error (n ∷ ns) builders =
      let rest = missing error ns builders in
      if is_some (lookup n builders) then rest else error n ∷ rest

  -- `OnlyExcept.Validate` against the builders of a template.
  unfoldable pub validate : OnlyExcept → Map (Builder V) → List OnlyExceptError
  validate o builders =
      if not (is_nil o.only) && not (is_nil o.except)
      then both_specified ∷ []
      else missing only_not_found o.only builders ++ missing except_not_found o.except builders
