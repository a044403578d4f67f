-- ===== src/Adapter/Breaker/FailFast.antt =====
-- While the breaker is open and the reset time has not come, no call gets through, whatever the
-- calls that were already under way report.
use test_assestment.Common.{
  ℕ, ◌+◌, ◌*◌, ◌≤◌, ◌<◌, ◌≡◌, refl, String, Option, some, Result, throw, arith, List, [], ◌∷◌, ap,
  Bool-cases, inl, inr, All,
}
use test_assestment.Adapter.Breaker.{
  BreakerConfig, closed, opened, Breaker, breaker_open, BreakerError, open_breaker,
  before_breaker_call, after_breaker_success, reaches, count_failure, after_breaker_failure,
}
use test_assestment.Adapter.Breaker.Transitions.{Call, before, succeeded, failed, apply}

-- The answer of each attempt to get through, in order.
pub answers :
    String → Option BreakerConfig → List Call → Breaker → List (Result BreakerError (Unit {0}))
unfolding apply
answers name cfg [] b = []
answers name cfg (before now ∷ calls) b =
    (before_breaker_call name cfg now b).0 ∷ answers name cfg calls (apply name cfg (before now) b)
answers name cfg (succeeded ∷ calls) b = answers name cfg calls (apply name cfg succeeded b)
answers name cfg (failed now ∷ calls) b = answers name cfg calls (apply name cfg (failed now) b)

-- The call reads a time in `[from, until)`, or none.
abbrev pub Within : ℕ → ℕ → Call → Type 0
Within from until (before now) = (from ≤ now) × (now < until)
Within from until succeeded = Unit
Within from until (failed now) = (from ≤ now) × (now < until)

-- Open since `from` or later.
pub record IsOpen (from : ℕ) (b : Breaker) : Type 0 where
  pub is_open : b.state ≡ opened
  pub since : from ≤ b.opened_at

before_breaker_call-IsOpen :
    (name : String) (cfg : BreakerConfig) (from now : ℕ) (b : Breaker)
    → IsOpen from b
    → now < from + cfg.reset_ms
    → before_breaker_call name (some cfg) now b ≡ (throw (breaker_open name), b)
unfolding before_breaker_call
before_breaker_call-IsOpen name cfg from now b o h =
    let since = o.since in let e = o.is_open in ground arith

succeeded-IsOpen :
    (cfg : BreakerConfig) (from : ℕ) (b : Breaker)
    → IsOpen from b
    → IsOpen from (after_breaker_success (some cfg) b)
unfolding after_breaker_success
succeeded-IsOpen cfg from b o =
    rw (o.is_open, after_breaker_success) (record { is_open = o.is_open; since = o.since })

failed-IsOpen :
    (cfg : BreakerConfig) (from now : ℕ) (b : Breaker)
    → IsOpen from b
    → from ≤ now
    → IsOpen from (after_breaker_failure (some cfg) now b)
unfolding after_breaker_failure count_failure open_breaker
failed-IsOpen cfg from now b o h =
    elim (Bool-cases
      (reaches cfg.error_threshold_pct (b.failures + 1) (b.successes + (b.failures + 1)))) [
        | inl e ↦ rw (o.is_open, after_breaker_failure, e) (record { is_open = refl; since = h })
        | inr e ↦
            rw (o.is_open, after_breaker_failure, e)
              (record { is_open = o.is_open; since = o.since })
      ]

-- For a breaker that is open and was opened no earlier than some time, and for calls whose times
-- all lie from that time up to, but not including, that time plus reset_ms, every attempt to get
-- through is answered with the breaker-open error, whatever successes and failures of calls
-- already under way are reported in between.
pub answers-IsOpen :
    (name : String) (cfg : BreakerConfig) (from : ℕ) (calls : List Call) (b : Breaker)
    → IsOpen from b
    → All (Within from (from + cfg.reset_ms)) calls
    → All (λ r. r ≡ throw (breaker_open name)) (answers name (some cfg) calls b)
unfolding answers
answers-IsOpen name cfg from [] b o w = tt
answers-IsOpen name cfg from (before now ∷ calls) b o ((p, q), w) =
    let e = before_breaker_call-IsOpen name cfg from now b o q in
    let still : apply name (some cfg) (before now) b ≡ b = unfold apply in (ap (λ r. r.1) e) in
    (ap (λ r. r.0) e, rw still (answers-IsOpen name cfg from calls b o w))
answers-IsOpen name cfg from (succeeded ∷ calls) b o (p, w) =
    answers-IsOpen name cfg from calls _ (succeeded-IsOpen cfg from b o) w
answers-IsOpen name cfg from (failed now ∷ calls) b o ((p, q), w) =
    answers-IsOpen name cfg from calls _ (failed-IsOpen cfg from now b o p) w

-- A failure reported to a closed breaker opens it, at the time of the report, when with it the
-- failures make up at least the threshold percentage of all calls counted.
pub trips :
    (cfg : BreakerConfig) (now : ℕ) (b : Breaker)
    → b.state ≡ closed
    → cfg.error_threshold_pct * (b.successes + (b.failures + 1)) ≤ (b.failures + 1) * 100
    → IsOpen now (after_breaker_failure (some cfg) now b)
unfolding after_breaker_failure count_failure open_breaker reaches
trips cfg now b e h = ground arith
