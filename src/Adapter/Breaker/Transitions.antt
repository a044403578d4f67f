-- ===== src/Adapter/Breaker/Transitions.antt =====
-- The moves of the breaker, and what each of its operations may do.
use test_assestment.Common.{
  ℕ, ◌+◌, ◌≡◌, refl, String, Option, none, some, Bool-cases, inl, inr, leb,
}
use test_assestment.Adapter.Breaker.{
  BreakerConfig, BreakerState, closed, opened, half_open, Breaker, open_breaker,
  before_breaker_call, after_breaker_success, reaches, count_failure, after_breaker_failure,
}

-- The state diagram: time leads from open to half open, a probe that succeeds closes, a probe
-- that fails opens, and a failure that reaches the threshold opens.
pub data Move : BreakerState → BreakerState → Type 0 where
  stay : (s : BreakerState) → Move s s
  trip : Move closed opened
  probe : Move opened half_open
  recover : Move half_open closed
  relapse : Move half_open opened

-- One call of the breaker's three operations, with the time that it reads.
pub data Call : Type 0 where
  before : ℕ → Call
  succeeded : Call
  failed : ℕ → Call

unfoldable pub apply : String → Option BreakerConfig → Call → Breaker → Breaker
apply name cfg (before now) b = (before_breaker_call name cfg now b).1
apply name cfg succeeded b = after_breaker_success cfg b
apply name cfg (failed now) b = after_breaker_failure cfg now b

count_failure-Move :
    (r : BreakerState) (now : ℕ) (cfg : BreakerConfig) (b : Breaker)
    → Move r opened
    → Move r b.state
    → Move r (count_failure now cfg b).state
unfolding count_failure open_breaker
count_failure-Move r now cfg b p q =
    elim (Bool-cases
      (reaches cfg.error_threshold_pct (b.failures + 1) (b.successes + (b.failures + 1)))) [
        | inl e ↦ rw (e, count_failure) p
        | inr e ↦ rw (e, count_failure) q
      ]

before-Move :
    (name : String) (cfg : BreakerConfig) (now : ℕ) (b : Breaker) (s : BreakerState)
    → b.state ≡ s
    → Move s (before_breaker_call name (some cfg) now b).1.state
unfolding before_breaker_call
before-Move name cfg now b closed e = rw (e, before_breaker_call) (rw e (stay closed))
before-Move name cfg now b opened e = elim (Bool-cases (leb (b.opened_at + cfg.reset_ms) now)) [
  | inl t ↦ rw (e, before_breaker_call, t) probe
  | inr t ↦ rw (e, before_breaker_call, t) (rw e (stay opened))
]
before-Move name cfg now b half_open e = rw (e, before_breaker_call) (rw e (stay half_open))

succeeded-Move :
    (cfg : BreakerConfig) (b : Breaker) (s : BreakerState)
    → b.state ≡ s
    → Move s (after_breaker_success (some cfg) b).state
unfolding after_breaker_success
succeeded-Move cfg b closed e = rw (e, after_breaker_success) (rw e (stay closed))
succeeded-Move cfg b opened e = rw (e, after_breaker_success) (rw e (stay opened))
succeeded-Move cfg b half_open e = rw (e, after_breaker_success) recover

failed-Move :
    (cfg : BreakerConfig) (now : ℕ) (b : Breaker) (s : BreakerState)
    → b.state ≡ s
    → Move s (after_breaker_failure (some cfg) now b).state
unfolding after_breaker_failure
failed-Move cfg now b closed e =
    rw (e, after_breaker_failure) (count_failure-Move closed now cfg b trip (rw e (stay closed)))
failed-Move cfg now b opened e =
    rw (e, after_breaker_failure)
      (count_failure-Move opened now cfg b (stay opened) (rw e (stay opened)))
failed-Move cfg now b half_open e = rw (e, after_breaker_failure) relapse

-- Whatever call is made of it, the breaker moves along its diagram only: it stays where it is,
-- opens from closed or half-open, becomes half-open from open, and closes from half-open.
pub apply-Move :
    (name : String) (cfg : Option BreakerConfig) (c : Call) (b : Breaker)
    → Move b.state (apply name cfg c b).state
unfolding apply before_breaker_call after_breaker_success after_breaker_failure
apply-Move name none (before now) b = stay b.state
apply-Move name none succeeded b = stay b.state
apply-Move name none (failed now) b = stay b.state
apply-Move name (some cfg) (before now) b = before-Move name cfg now b b.state refl
apply-Move name (some cfg) succeeded b = succeeded-Move cfg b b.state refl
apply-Move name (some cfg) (failed now) b = failed-Move cfg now b b.state refl
