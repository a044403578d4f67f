-- ===== src/Adapter/Breaker.antt =====
-- The circuit breaker of engine/src/engine/adapter.ts, with the configuration of
-- engine/src/public/integration.ts. A percentage is compared without rounding: `f / t * 100 ≥ p`
-- is `p * t ≤ f * 100`.
pub mod Transitions
pub mod FailFast
mod Tests
use test_assestment.Common.{
  ℕ, zero, suc, ◌+◌, ◌*◌, String, Bool, true, false, Option, none, some, List, [], ◌∷◌, leb, nat_eq,
  if◌then◌else◌, Result, ok, throw,
}

pub record BreakerConfig : Type 0 where
  pub error_threshold_pct : ℕ
  pub reset_ms : ℕ

pub data BreakerState : Type 0 where
  closed opened half_open : BreakerState

pub record Breaker : Type 0 where
  pub state : BreakerState
  pub opened_at : ℕ
  pub successes : ℕ
  pub failures : ℕ

-- `integration breaker open: ${integ.name}`
pub data BreakerError : Type 0 where
  breaker_open : String → BreakerError

unfoldable pub initial : Breaker
initial = record { state = closed; opened_at = 0; successes = 0; failures = 0 }

unfoldable pub open_breaker : ℕ → Breaker → Breaker
open_breaker now b = record b { state = opened; opened_at = now }

abbrev pub before_open :
    String → ℕ → BreakerConfig → Breaker → Result BreakerError (Unit {0}) × Breaker
before_open name now cfg b =
    if leb (b.opened_at + cfg.reset_ms) now
    then (ok tt, record b { state = half_open })
    else (throw (breaker_open name), b)

unfoldable pub before_breaker_call :
    String → Option BreakerConfig → ℕ → Breaker → Result BreakerError (Unit {0}) × Breaker
before_breaker_call name none now b = (ok tt, b)
before_breaker_call name (some cfg) now b = elim b.state [
  | opened ↦ before_open name now cfg b
  | _ ↦ (ok tt, b)
]

abbrev pub count_success : Breaker → Breaker
count_success b = record b { successes = b.successes + 1 }

unfoldable pub after_breaker_success : Option BreakerConfig → Breaker → Breaker
after_breaker_success none b = b
after_breaker_success (some cfg) b = elim b.state [
  | half_open ↦ record b { state = closed; successes = 0; failures = 0 }
  | _ ↦ count_success b
]

-- `failurePct >= integ.breaker.errorThresholdPct`
unfoldable pub reaches : ℕ → ℕ → ℕ → Bool
reaches threshold failures total =
    if nat_eq total 0 then leb threshold 0 else leb (threshold * total) (failures * 100)

unfoldable pub count_failure : ℕ → BreakerConfig → Breaker → Breaker
unfolding reaches open_breaker
count_failure now cfg b =
    let b' = record b { failures = b.failures + 1 } in
    if reaches cfg.error_threshold_pct b'.failures (b'.successes + b'.failures)
    then open_breaker now b'
    else b'

unfoldable pub after_breaker_failure : Option BreakerConfig → ℕ → Breaker → Breaker
unfolding open_breaker
after_breaker_failure none now b = b
after_breaker_failure (some cfg) now b = elim b.state [
  | half_open ↦ open_breaker now b
  | _ ↦ count_failure now cfg b
]
