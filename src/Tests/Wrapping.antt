-- ===== src/Tests/Wrapping.antt =====
-- Concrete runs of the executor wrappers, around an executor with a script of results.
use artemis_light.Prelude.{ℕ, ◌≤◌, ◌≡◌, Option, none, some, List, [], ◌∷◌, arith}
use artemis_light.Wrappers.{Executor}
use artemis_light.Wrappers.Breaker.{CircuitBreaker, submit_all, streak, streak-failures}
use artemis_light.Wrappers.RateLimiting.{Timing, rate_limit, submit_timed}
use artemis_light.Wrappers.RateLimiting.Windowed.{within_window, submit_timed-within_window}
use artemis_light.Wrappers.Retrying.{default_policy, retry_execute, Ends, retry_execute-Ends}

-- The next result; a script that has ended succeeds.
abbrev scripted : ℕ → List (Option ℕ) → Option ℕ × List (Option ℕ)
scripted a [] = (none, [])
scripted a (r ∷ rs) = (r, rs)

abbrev script : Executor ℕ
script = record { State = List (Option ℕ); Failure = ℕ; execute = scripted }

abbrev breaker : CircuitBreaker script
breaker = record { executor = some 4 ∷ none ∷ some 5 ∷ some 6 ∷ []; max_failures = 2; failures = 0 }

streak-failures_example :
    ((submit_all script (1 ∷ 2 ∷ 3 ∷ 4 ∷ 5 ∷ []) breaker).1.failures
      ≡ streak script 0 (submit_all script (1 ∷ 2 ∷ 3 ∷ 4 ∷ 5 ∷ []) breaker).0)
    × ((submit_all script (1 ∷ 2 ∷ 3 ∷ 4 ∷ 5 ∷ []) breaker).1.failures ≤ 2)
streak-failures_example =
    streak-failures script (1 ∷ 2 ∷ 3 ∷ 4 ∷ 5 ∷ []) breaker (omega arith) (omega arith)

abbrev tripped : CircuitBreaker script
tripped = record { executor = none ∷ []; max_failures = 2; failures = 2 }

retry_execute-Ends_example :
    Ends script default_policy 3 (retry_execute script default_policy 1 (some 4 ∷ some 5 ∷ []))
retry_execute-Ends_example =
    retry_execute-Ends script default_policy 1 (some 4 ∷ some 5 ∷ []) (omega arith)

-- Four calls at three a second: the last one waits.
abbrev calls : List (Timing × ℕ)
calls =
    (record { idle = 5; late = 0 }, 1)
    ∷ (record { idle = 0; late = 7 }, 2)
    ∷ (record { idle = 3; late = 0 }, 3)
    ∷ (record { idle = 1; late = 2 }, 4)
    ∷ []

submit_timed-within_window_example :
    within_window 1000000007 (submit_timed script calls (rate_limit script [] 3)).0 ≤ 3
submit_timed-within_window_example =
    submit_timed-within_window script calls [] 3 1000000007 (omega arith)
