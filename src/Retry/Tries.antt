-- ===== src/Retry/Tries.antt =====
-- How often a retried function is called.
use packer_plugin_sdk.Prelude.{
  ℕ, zero, suc, ◌+◌, ◌≤◌, ◌<◌, ◌≡◌, refl, false, Option, none, some, ◌==◌, arith, Option-cases,
  Bool-cases, inl, inr,
}
use packer_plugin_sdk.Retry.{
  Config, Around, succeeded, exhausted, gave_up, Report, run_from, run, should_retry_of, stops,
  Backoff, linear,
}

module _ {E S : Type 0} (cfg : Config E) (around : Around) (fn : S → Option E × S) where
  -- A report within the tries; the tries are exhausted only by all of them.
  pub IsBounded : Report E S → Type 0
  IsBounded r =
      (r.calls ≤ cfg.tries)
      × elim r.ended [ exhausted err ↦ r.calls ≡ cfg.tries | succeeded ↦ Unit | gave_up e ↦ Unit ]

  Bounded : Option (Report E S) → Type 0
  Bounded o = (r : Report E S) × (o ≡ some r) × IsBounded r

  run_from-Bounded :
      (fuel try : ℕ) (err : Option E) (s : S) (slept : ℕ)
      → (cfg.tries == 0) ≡ false
      → try ≤ cfg.tries
      → cfg.tries < fuel + try
      → Bounded (run_from cfg around fn fuel try err s slept)
  unfolding run_from Bounded IsBounded
  run_from-Bounded zero try err s slept h k f = absurd (omega (arith, k, f))
  run_from-Bounded (suc fuel) try err s slept h k f = elim (Bool-cases (try == cfg.tries)) [
    | inl last ↦ rw (h, last) (_, refl, (k, ground arith))
    | inr more ↦
        let room : try < cfg.tries = ground arith in
        elim (Option-cases (fn s).0) [
          | inl ok ↦ rw (h, more, ok) (_, refl, (room, tt))
          | inr (e, failed) ↦ elim (Bool-cases (should_retry_of cfg e)) [
            | inr final ↦ rw (h, more, failed, final) (_, refl, (room, tt))
            | inl again ↦ elim (Bool-cases (stops cfg around fn try)) [
              | inl stop ↦ rw (h, more, failed, again, stop) (_, refl, (room, tt))
              | inr goes ↦
                  rw (h, more, failed, again, goes)
                    (run_from-Bounded fuel (suc try) (some e) (fn s).1 _ h room (omega (arith, f)))
            ]
          ]
        ]
  ]

  -- With a positive number of tries, and more fuel than that, the run ends: whatever the function and
  -- the context do, the function is not called more often than that number, and exactly as often if
  -- the tries are reported as exhausted.
  pub run-IsBounded :
      (fuel : ℕ) (s : S)
      → (cfg.tries == 0) ≡ false
      → cfg.tries < fuel
      → (r : Report E S) × (run cfg around fn fuel s ≡ some r) × IsBounded r
  unfolding run Bounded
  run-IsBounded fuel s h f = run_from-Bounded fuel 0 none s 0 h (omega arith) (omega (arith, f))

-- A backoff that starts within its positive maximum stays within it.
pub linear-bounded :
    (lb : Backoff)
    → (lb.max_backoff == 0) ≡ false
    → lb.initial_backoff ≤ lb.max_backoff
    → ((linear lb).0 ≤ lb.max_backoff) × ((linear lb).1.initial_backoff ≤ lb.max_backoff)
unfolding linear
linear-bounded lb h k = ground arith
