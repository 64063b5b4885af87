-- ===== src/Packer/Hook/Order.antt =====
-- Which hooks a dispatch runs.
use mathlib.Core.Path.{subst}
use packer_plugin_sdk.Prelude.{
  ℕ, suc, ◌+◌, length, ◌⊎◌, ◌≡◌, refl, ap, Option, none, some, List, [], ◌∷◌, ◌++◌, String, Map,
  lookup, arith, Option-cases, inl, inr,
}
use packer_plugin_sdk.Packer.Hook.{Hook, run_hooks, dispatch}

-- The hooks of a name; there are none for a name that is not in the map.
abbrev pub hooks_of : {E S : Type 0} → Map (List (Hook E S)) → String → List (Hook E S)
hooks_of mapping name = elim (lookup name mapping) [ none ↦ [] | some hooks ↦ hooks ]

module _ {E S : Type 0} (ctx_err : ℕ → Option E) (name : String) where
  -- The state behind all of the hooks, one after the other.
  abbrev pub after_all : List (Hook E S) → S → S
  after_all [] s = s
  after_all (hook ∷ hooks) s = after_all hooks (hook name s).1

  -- The context is not done before any of the hooks, from the i-th on, and none returns an error.
  abbrev pub AllOk : ℕ → List (Hook E S) → S → Type 0
  AllOk i [] s = Unit
  AllOk i (hook ∷ hooks) s =
      (ctx_err i ≡ none) × ((hook name s).0 ≡ none) × AllOk (suc i) hooks (hook name s).1

  -- What comes of a hook that ends the dispatch: the context is done before it, and it does not run; or it
  -- runs and returns an error. With no such hook there is no error.
  abbrev pub Ends : ℕ → List (Hook E S) → S → Option E × S → Type 0
  Ends i [] s r = r ≡ (none, s)
  Ends i (hook ∷ later) s r =
      (e : E) × (((ctx_err i ≡ some e) × (r ≡ (some e, s)))
        ⊎ ((ctx_err i ≡ none) × ((hook name s).0 ≡ some e) × (r ≡ (some e, (hook name s).1))))

  -- A front part of the hooks is fine, and the next hook, if there is one, ends the dispatch.
  pub StopsAt : ℕ → List (Hook E S) → S → Option E × S → Type 0
  StopsAt i hooks s r =
      (front rest : List (Hook E S)) × (hooks ≡ front ++ rest)
      × AllOk i front s
      × Ends (i + length front) rest (after_all front s) r

  StopsAt-cons :
      (i : ℕ) (hook : Hook E S) (hooks : List (Hook E S)) (s : S) (r : Option E × S)
      → ctx_err i ≡ none
      → (hook name s).0 ≡ none
      → StopsAt (suc i) hooks (hook name s).1 r
      → StopsAt i (hook ∷ hooks) s r
  unfolding StopsAt
  StopsAt-cons i hook hooks s r alive ok (front, rest, split, fine, ends) =
      let place : suc i + length front ≡ i + suc (length front) = omega arith in
      (
        hook ∷ front,
        rest,
        ap (λ t. hook ∷ t) split,
        (alive, ok, fine),
        subst (λ k. Ends k rest (after_all front (hook name s).1) r) place ends,
      )

  run_hooks-done :
      (i : ℕ) (hook : Hook E S) (hooks : List (Hook E S)) (s : S) (e : E)
      → ctx_err i ≡ some e
      → run_hooks ctx_err name i (hook ∷ hooks) s ≡ (some e, s)
  unfolding run_hooks
  run_hooks-done i hook hooks s e done = ground arith

  run_hooks-failed :
      (i : ℕ) (hook : Hook E S) (hooks : List (Hook E S)) (s : S) (e : E)
      → ctx_err i ≡ none
      → (hook name s).0 ≡ some e
      → run_hooks ctx_err name i (hook ∷ hooks) s ≡ (some e, (hook name s).1)
  unfolding run_hooks
  run_hooks-failed i hook hooks s e alive failed = ground arith

  run_hooks-next :
      (i : ℕ) (hook : Hook E S) (hooks : List (Hook E S)) (s : S)
      → ctx_err i ≡ none
      → (hook name s).0 ≡ none
      → run_hooks ctx_err name i (hook ∷ hooks) s
        ≡ run_hooks ctx_err name (suc i) hooks (hook name s).1
  unfolding run_hooks
  run_hooks-next i hook hooks s alive ok = ground arith

  run_hooks-StopsAt :
      (i : ℕ) (hooks : List (Hook E S)) (s : S)
      → StopsAt i hooks s (run_hooks ctx_err name i hooks s)
  unfolding StopsAt
  run_hooks-StopsAt i [] s = ([], [], refl, tt, unfold run_hooks in refl)
  run_hooks-StopsAt i (hook ∷ hooks) s = elim (Option-cases (ctx_err i)) [
    | inr (e, done) ↦
        rw (run_hooks-done i hook hooks s e done)
          ([], hook ∷ hooks, refl, tt, (e, inl (at_start done, refl)))
    | inl alive ↦ elim (Option-cases (hook name s).0) [
      | inr (e, failed) ↦
          rw (run_hooks-failed i hook hooks s e alive failed)
            ([], hook ∷ hooks, refl, tt, (e, inr (at_start alive, failed, refl)))
      | inl ok ↦
          rw (run_hooks-next i hook hooks s alive ok) (
            StopsAt-cons i hook hooks s _ alive ok
              (run_hooks-StopsAt (suc i) hooks (hook name s).1))
    ]
  ]
    where
      at_start : {x : Option E} → ctx_err i ≡ x → ctx_err (i + 0) ≡ x
      at_start {x} h = subst (λ k. ctx_err k ≡ x) (omega arith) h

  dispatch-run_hooks :
      (mapping : Map (List (Hook E S))) (s : S)
      → dispatch ctx_err name mapping s ≡ run_hooks ctx_err name 0 (hooks_of mapping name) s
  unfolding dispatch
  dispatch-run_hooks mapping s = elim (Option-cases (lookup name mapping)) [
    | inl absent ↦ rw (absent, hooks_of, dispatch) (unfold run_hooks in refl)
    | inr (hooks, found) ↦ rw (found, hooks_of, dispatch) refl
  ]

  -- The hooks of the name are run in their order, each on the state that the one before it left, up to
  -- the first one before which the context is done, whose error is returned, or that returns an error
  -- itself. No hook behind that one runs. With no such hook all are run and there is no error.
  pub dispatch-StopsAt :
      (mapping : Map (List (Hook E S))) (s : S)
      → StopsAt 0 (hooks_of mapping name) s (dispatch ctx_err name mapping s)
  dispatch-StopsAt mapping s =
      rw (dispatch-run_hooks mapping s) (run_hooks-StopsAt 0 (hooks_of mapping name) s)
