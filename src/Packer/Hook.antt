-- ===== src/Packer/Hook.antt =====
-- packer/hook.go: hooks by name, run in their order. A hook is a function over a state, with the name
-- that it is called under; the user interface, the communicator and the data are part of that state.
pub mod Order
use packer_plugin_sdk.Prelude.{ℕ, suc, Option, none, some, List, [], ◌∷◌, String, Map, lookup}

abbrev pub Hook : Type 0 → Type 0 → Type 0
Hook E S = String → S → Option E × S

-- `ctx_err i` is `ctx.Err()` in front of the i-th hook.
module _ {E S : Type 0} (ctx_err : ℕ → Option E) (name : String) where
  unfoldable pub run_hooks : ℕ → List (Hook E S) → S → Option E × S
  run_hooks i [] s = (none, s)
  run_hooks i (hook ∷ hooks) s = elim (ctx_err i) [
    | some e ↦ (some e, s)
    | none ↦
        let (result, s') = hook name s in
        elim result [ some e ↦ (some e, s') | none ↦ run_hooks (suc i) hooks s' ]
  ]

  -- `DispatchHook.Run`
  unfoldable pub dispatch : Map (List (Hook E S)) → S → Option E × S
  dispatch mapping s = elim (lookup name mapping) [
    | none ↦ (none, s)
    | some hooks ↦ run_hooks 0 hooks s
  ]
