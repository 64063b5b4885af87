-- ===== src/Template/Validate/Accepts.antt =====
-- The templates that validation accepts.
use packer_plugin_sdk.Prelude.{
  ℕ, suc, ◌≡◌, ◌↔◌, true, false, List, [], ◌∷◌, ◌++◌, map, String, is_nil, is_some, Map, lookup,
  arith, All,
}
use packer_plugin_sdk.Template.Types.{Builder, Provisioner, PostProcessor, Template}
use packer_plugin_sdk.Template.OnlyExcept.{OnlyExceptError, validate}
use packer_plugin_sdk.Template.Validate.{
  ValidateError, provisioner_setting, post_processor_setting, check_overrides, check_provisioners,
  check_chain, check_chains, validate_template,
}

append_nil_iff : (xs ys : List ValidateError) → (xs ++ ys ≡ []) ↔ ((xs ≡ []) × (ys ≡ []))
append_nil_iff [] ys = ground arith
append_nil_iff (x ∷ xs) ys = ground arith

map_nil_iff :
    (f : OnlyExceptError → ValidateError) (es : List OnlyExceptError) → (map f es ≡ []) ↔ (es ≡ [])
map_nil_iff f [] = ground arith
map_nil_iff f (e ∷ es) = ground arith

module _ {V : Type 0} (builders : Map (Builder V)) where
  -- Every name that is overridden has a builder.
  pub Overrides : Map V → Type 0
  Overrides m = All (λ (p : String × V). is_some (lookup p.0 builders) ≡ true) m

  pub IsValidProvisioner : Provisioner V → Type 0
  IsValidProvisioner p = (validate p.only_except builders ≡ []) × Overrides p.override

  pub IsValidPostProcessor : PostProcessor V → Type 0
  IsValidPostProcessor p = validate p.only_except builders ≡ []

  check_overrides_iff : (i : ℕ) (m : Map V) → (check_overrides i m builders ≡ []) ↔ Overrides m
  unfolding check_overrides Overrides
  check_overrides_iff i [] = ground arith
  check_overrides_iff i ((k, v) ∷ m) = ground (arith, check_overrides_iff i m)

  check_provisioners_iff :
      (i : ℕ) (ps : List (Provisioner V))
      → (check_provisioners i ps builders ≡ []) ↔ All IsValidProvisioner ps
  unfolding check_provisioners IsValidProvisioner
  check_provisioners_iff i [] = ground arith
  check_provisioners_iff i (p ∷ ps) = ground (
    arith,
    check_provisioners_iff (suc i) ps,
    check_overrides_iff i p.override,
    map_nil_iff (provisioner_setting i) (validate p.only_except builders),
    append_nil_iff (map (provisioner_setting i) (validate p.only_except builders))
        (check_overrides i p.override builders ++ check_provisioners (suc i) ps builders),
    append_nil_iff (check_overrides i p.override builders) (check_provisioners (suc i) ps builders),
  )

  check_chain_iff :
      (i j : ℕ) (ps : List (PostProcessor V))
      → (check_chain i j ps builders ≡ []) ↔ All IsValidPostProcessor ps
  unfolding check_chain IsValidPostProcessor
  check_chain_iff i j [] = ground arith
  check_chain_iff i j (p ∷ ps) = ground (
    arith,
    check_chain_iff i (suc j) ps,
    map_nil_iff (post_processor_setting i j) (validate p.only_except builders),
    append_nil_iff (map (post_processor_setting i j) (validate p.only_except builders))
        (check_chain i (suc j) ps builders),
  )

  check_chains_iff :
      (i : ℕ) (chains : List (List (PostProcessor V)))
      → (check_chains i chains builders ≡ []) ↔ All (All IsValidPostProcessor) chains
  unfolding check_chains
  check_chains_iff i [] = ground arith
  check_chains_iff i (chain ∷ chains) = ground (
    arith,
    check_chain_iff i 1 chain,
    check_chains_iff (suc i) chains,
    append_nil_iff (check_chain i 1 chain builders) (check_chains (suc i) chains builders),
  )

-- A template is accepted exactly if it has a builder, the `only` and `except` settings of every
-- provisioner and post-processor are accepted, and every override names a builder.
pub validate_template_ok_iff :
    {V : Type 0} (t : Template V)
    → (validate_template t ≡ []) ↔ (
        (is_nil t.builders ≡ false)
        × (All (IsValidProvisioner t.builders) t.provisioners
            × All (All (IsValidPostProcessor t.builders)) t.post_processors))
unfolding validate_template
validate_template_ok_iff t = ground (
  arith,
  check_provisioners_iff t.builders 1 t.provisioners,
  check_chains_iff t.builders 1 t.post_processors,
  append_nil_iff (check_provisioners 1 t.provisioners t.builders)
      (check_chains 1 t.post_processors t.builders),
)
