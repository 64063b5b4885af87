-- ===== src/Multistep/DebugRunner/Once.antt =====
-- A debug runner is used once.
use packer_plugin_sdk.Prelude.{◌≡◌, refl, sym, ap, Bool, true, false, String, inl, inr, Bool-cases}
use packer_plugin_sdk.Multistep.StateBag.{StateBag}
use packer_plugin_sdk.Multistep.BasicRunner.{
  Env, Outcome, blocked, already_running, returned, panicked,
}
use packer_plugin_sdk.Multistep.DebugRunner.{all_named, DebugRunner, debug_run, debug_outcome}

module _ {S : Type 0} (bag : StateBag S) where
  debug_outcome-returned :
      {R Q : Type 0} (q q' : Q) (o : Outcome R S) (t : S)
      → debug_outcome q o ≡ returned q' t
      → q ≡ q'
  debug_outcome-returned q q' blocked t h = cc
  debug_outcome-returned q q' (already_running r) t h = cc
  debug_outcome-returned q q' (returned r s) t h = cc
  debug_outcome-returned q q' (panicked r s) t h = cc

  debug_run_used :
      (terminal : String → S → S) (env : Env) (done : Bool) (r r' : DebugRunner S) (s t : S)
      → debug_run bag terminal env done r s ≡ returned r' t
      → (r'.has_runner ≡ true) × (r'.locked ≡ false)
  unfolding debug_run
  debug_run_used terminal env done r r' s t h = elim (Bool-cases r.locked) [
    | inl held ↦ let e = rw held at h in cc
    | inr free ↦ elim (Bool-cases r.has_runner) [
      | inl used ↦ let e = rw (free, used) at h in cc
      | inr unused ↦ elim (Bool-cases (all_named r.steps)) [
        | inr bad ↦ let e = rw (free, unused, bad) at h in cc
        | inl named ↦
            let e =
              debug_outcome-returned (record r { has_runner = true; locked = false }) r' _ t
                (rw (free, unused, named) at h) in
            (sym (ap DebugRunner.has_runner e), sym (ap DebugRunner.locked e))
      ]
    ]
  ]

  -- A debug runner runs once: when a run has come back, the next call panics and leaves the mutex
  -- locked, so that every call after it blocks.
  pub debug_run_once :
      (terminal : String → S → S) (env env' env'' : Env) (done done' done'' : Bool)
      (r r' : DebugRunner S) (s t s' s'' : S)
      → debug_run bag terminal env done r s ≡ returned r' t
      → (debug_run bag terminal env' done' r' s' ≡ already_running (record r' { locked = true }))
        × (debug_run bag terminal env'' done'' (record r' { locked = true }) s'' ≡ blocked)
  unfolding debug_run
  debug_run_once terminal env env' env'' done done' done'' r r' s t s' s'' h =
      let (used, free) = debug_run_used terminal env done r r' s t h in (rw (free, used), refl)
