-- ===== src/Retry/Tests.antt =====
-- Runs of retried functions.
use packer_plugin_sdk.Prelude.{
  ℕ, suc, ◌*◌, ◌≡◌, refl, false, Option, none, some, String, if◌then◌else◌, ltb, arith,
}
use packer_plugin_sdk.Retry.{Config, Around, succeeded, exhausted, Report, run_from, run, Backoff}
use packer_plugin_sdk.Retry.Tries.{IsBounded, run-IsBounded}

abbrev three_tries : Config String
three_tries = record {
  start_timeout = 5;
  retry_delay = some (λ try. 10);
  tries = 3;
  should_retry = none;
}

abbrev quiet : Around
quiet = record { done = λ try. false; fired = λ try. false }

-- A call that works from the n-th time on.
abbrev works_after : ℕ → ℕ → Option String × ℕ
works_after n s = (if ltb s n then some "throttled" else none, suc s)

second_call_works :
    run three_tries quiet (works_after 1) 4 0
    ≡ some (record { ended = succeeded; state = 2; calls = 2; slept = 10 })
unfolding run run_from
second_call_works = refl

never_works :
    run three_tries quiet (works_after 9) 4 0
    ≡ some (record { ended = exhausted (some "throttled"); state = 3; calls = 3; slept = 30 })
unfolding run run_from
never_works = refl

run-IsBounded_example :
    (r : Report String ℕ) × (run three_tries quiet (works_after 9) 4 0 ≡ some r)
    × IsBounded three_tries quiet (works_after 9) r
run-IsBounded_example = run-IsBounded three_tries quiet (works_after 9) 4 0 refl (omega arith)

abbrev doubling : Backoff
doubling = record { initial_backoff = 3; max_backoff = 5; multiplier = λ d. 2 * d }
