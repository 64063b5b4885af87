-- ===== src/Template/OnlyExcept/Laws.antt =====
-- The settings that are accepted, and how `only` and `except` relate.
use packer_plugin_sdk.Prelude.{
  ◌≡◌, ◌↔◌, ◌⊎◌, true, false, not, List, [], ◌∷◌, ◌++◌, String, is_nil, is_some, Map, lookup, arith,
  All,
}
use packer_plugin_sdk.Template.Types.{OnlyExcept, Builder}
use packer_plugin_sdk.Template.OnlyExcept.{
  OnlyExceptError, only_not_found, except_not_found, skip, missing, validate,
}

-- The same names under `only` and under `except`, where there are any, skip opposite builds.
pub skip-opposite :
    (ns : List String) (n : String)
    → is_nil ns ≡ false
    → skip (record { only = ns; except = [] }) n ≡ not (skip (record { only = []; except = ns }) n)
unfolding skip
skip-opposite ns n h = ground arith

module _ {V : Type 0} (builders : Map (Builder V)) where
  -- Every name has a builder.
  pub AllKnown : List String → Type 0
  AllKnown ns = All (λ n. is_some (lookup n builders) ≡ true) ns

  missing_iff :
      (error : String → OnlyExceptError) (ns : List String)
      → (missing error ns builders ≡ []) ↔ AllKnown ns
  unfolding AllKnown
  missing_iff error [] = ground arith
  missing_iff error (n ∷ ns) = ground (arith, missing_iff error ns)

  append_nil_iff : (xs ys : List OnlyExceptError) → (xs ++ ys ≡ []) ↔ ((xs ≡ []) × (ys ≡ []))
  append_nil_iff [] ys = ground arith
  append_nil_iff (x ∷ xs) ys = ground arith

  -- The settings are accepted exactly if one of the lists is empty and every name in them has a builder.
  pub validate_ok_iff :
      (o : OnlyExcept)
      → (validate o builders ≡ []) ↔ (
          ((is_nil o.only ≡ true) ⊎ (is_nil o.except ≡ true))
          × (AllKnown o.only × AllKnown o.except))
  unfolding validate
  validate_ok_iff o = ground (
    arith,
    missing_iff only_not_found o.only,
    missing_iff except_not_found o.except,
    append_nil_iff (missing only_not_found o.only builders)
        (missing except_not_found o.except builders),
  )
