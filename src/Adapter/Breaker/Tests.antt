-- ===== src/Adapter/Breaker/Tests.antt =====
-- The breaker of the demo's classifier, and the theorems at its runs.
use test_assestment.Common.{◌≡◌, refl, arith, some, All, [], ◌∷◌, ok, throw}
use test_assestment.Adapter.Breaker.{
  BreakerConfig, closed, opened, half_open, Breaker, breaker_open, before_breaker_call,
  after_breaker_failure, count_failure,
}
use test_assestment.Adapter.Breaker.Transitions.{before, succeeded, failed}
use test_assestment.Adapter.Breaker.FailFast
use test_assestment.Adapter.Breaker.FailFast.{answers, IsOpen}

abbrev classifier : BreakerConfig
classifier = record { error_threshold_pct = 50; reset_ms = 30_000 }

abbrev tripped : Breaker
tripped = record { state = opened; opened_at = 1_000; successes = 1; failures = 1 }

abbrev half_failed : Breaker
half_failed = record { state = closed; opened_at = 0; successes = 1; failures = 0 }

opens_at_half :
    (after_breaker_failure (some classifier) 1_000 half_failed ≡ tripped)
    × (before_breaker_call "c" (some classifier) 31_000 tripped
        ≡ (ok tt, record tripped { state = half_open }))
unfolding after_breaker_failure before_breaker_call count_failure
opens_at_half = (refl, refl)

answers-IsOpen_example :
    All
      (λ r. r ≡ throw (breaker_open "c"))
      (answers "c"
        (some classifier)
        (before 2_000 ∷ failed 3_000 ∷ succeeded ∷ before 30_999 ∷ [])
        tripped)
answers-IsOpen_example =
    FailFast.answers-IsOpen "c" classifier 1_000
      (before 2_000 ∷ failed 3_000 ∷ succeeded ∷ before 30_999 ∷ []) tripped
      (record { is_open = refl; since = omega arith }) (omega arith)
