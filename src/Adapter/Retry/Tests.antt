-- ===== src/Adapter/Retry/Tests.antt =====
-- Three attempts with growing delays, and the theorem at their run.
use test_assestment.Common.{
  ℕ, String, false, Option, none, some, [], ◌∷◌, Result, ok, throw, ◌≡◌, refl, leb, if◌then◌else◌,
}
use test_assestment.Adapter.Retry.{
  RetryConfig, attempts_of, delay_of, sleep, retry_from, run_with_retry,
}
use test_assestment.Adapter.Retry.Attempts
use test_assestment.Adapter.Retry.Attempts.{Ends}

abbrev thrice : Option RetryConfig
thrice = some (record { attempts = 3; backoff_ms = 100; jitter = false })

-- The third call answers.
abbrev flaky : ℕ → Result String ℕ
flaky n = if leb 3 n then ok 7 else throw "down"

abbrev no_abort : ℕ → Option String
no_abort n = none

abbrev no_random : ℕ → ℕ
no_random n = 0

third_answers :
    run_with_retry thrice no_random flaky no_abort "undefined"
    ≡ record { result = ok 7; calls = 3; sleeps = 100 ∷ 200 ∷ [] }
unfolding run_with_retry retry_from attempts_of delay_of sleep
third_answers = refl

run_with_retry-Ends_example :
    Ends thrice no_random flaky no_abort 1
      (run_with_retry thrice no_random flaky no_abort "undefined")
run_with_retry-Ends_example =
    Attempts.run_with_retry-Ends thrice no_random flaky no_abort "undefined"
