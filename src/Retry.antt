-- ===== src/Retry.antt =====
-- retry/retry.go: a function is run again until it succeeds, or a limit of the configuration is met.
pub mod Tries
mod Tests
use packer_plugin_sdk.Prelude.{
  ℕ, zero, suc, ◌+◌, Bool, true, false, Option, none, some, String, if◌then◌else◌, ltb, ◌==◌, not,
  ◌&&◌,
}

-- The settings; times are in nanoseconds. A nil function has the default that `Run` puts in its place.
pub record Config (E : Type 0) : Type 0 where
  pub start_timeout : ℕ
  pub retry_delay : Option (ℕ → ℕ)
  pub tries : ℕ
  pub should_retry : Option (E → Bool)

abbrev pub delay_of : {E : Type 0} → Config E → ℕ → ℕ
delay_of cfg try = elim cfg.retry_delay [ none ↦ 2000000000 | some delay ↦ delay try ]

abbrev pub should_retry_of : {E : Type 0} → Config E → E → Bool
should_retry_of cfg err = elim cfg.should_retry [ none ↦ true | some test ↦ test err ]

-- What is around a run: whether the context is done, and whether the start timer has fired, when the
-- loop looks after its i-th call.
pub record Around : Type 0 where
  pub done : ℕ → Bool
  pub fired : ℕ → Bool

-- How `Run` ends: with no error, with `RetryExhaustedError` around the last error, or with an error.
pub data Ended (E : Type 0) : Type 0 where
  succeeded : Ended E
  exhausted : Option E → Ended E
  gave_up : E → Ended E

-- The world of the function, the times slept, and the ending.
pub record Report (E S : Type 0) : Type 0 where
  pub ended : Ended E
  pub state : S
  pub calls : ℕ
  pub slept : ℕ

module _ {E S : Type 0} (cfg : Config E) (around : Around) (fn : S → Option E × S) where
  -- One of the channels of the `select` is ready. The channel of no timeout is nil and never is.
  abbrev pub stops : ℕ → Bool
  stops try = if around.done try then true else not (cfg.start_timeout == 0) && around.fired try

  -- The loop of `Run` from the call `try`, with the last error, the state and the time slept. `none` is
  -- the end of the fuel.
  unfoldable pub run_from : ℕ → ℕ → Option E → S → ℕ → Option (Report E S)
  run_from zero try err s slept = none
  run_from (suc fuel) try err s slept =
      if not (cfg.tries == 0) && (try == cfg.tries)
      then some (record { ended = exhausted err; state = s; calls = try; slept = slept })
      else let (result, s') = fn s in
        elim result [
          | none ↦ some (record { ended = succeeded; state = s'; calls = suc try; slept = slept })
          | some e ↦
              let again = run_from fuel (suc try) (some e) s' (slept + delay_of cfg try) in
              if not (should_retry_of cfg e)
              then some (record { ended = gave_up e; state = s'; calls = suc try; slept = slept })
              else if stops try
              then some (record { ended = gave_up e; state = s'; calls = suc try; slept = slept })
              else again
        ]

  unfoldable pub run : ℕ → S → Option (Report E S)
  run fuel s = run_from fuel 0 none s 0

-- `Backoff`, whose multiplication of a duration by a float is a parameter.
pub record Backoff : Type 0 where
  pub initial_backoff : ℕ
  pub max_backoff : ℕ
  pub multiplier : ℕ → ℕ

-- `Backoff.Linear`: the time to wait, and the backoff after it.
unfoldable pub linear : Backoff → ℕ × Backoff
linear lb =
    let next = lb.multiplier lb.initial_backoff in
    (
      lb.initial_backoff,
      record {
        initial_backoff =
            if not (lb.max_backoff == 0) && ltb lb.max_backoff next then lb.max_backoff else next;
        max_backoff = lb.max_backoff;
        multiplier = lb.multiplier;
      },
    )
