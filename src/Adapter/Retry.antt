-- ===== src/Adapter/Retry.antt =====
-- runWithRetry of engine/src/engine/adapter.ts with its sleeps. The method is what its calls
-- answer, one after another; an abort during a sleep, or before it, is an argument, and so is the
-- random number.
pub mod Attempts
mod Tests
use test_assestment.Common.{
  ℕ, zero, suc, ◌+◌, ◌*◌, ◌^◌, ◌-◌, Bool, true, false, Option, none, some, List, [], ◌∷◌, leb, max,
  if◌then◌else◌, Result, ok, throw, nat_eq,
}

pub record RetryConfig : Type 0 where
  pub attempts : ℕ
  pub backoff_ms : ℕ
  pub jitter : Bool

-- `Math.max(1, Math.floor(integ.retry?.attempts ?? 1))`
unfoldable pub attempts_of : Option RetryConfig → ℕ
attempts_of none = 1
attempts_of (some cfg) = max 1 cfg.attempts

abbrev pub base_of : Option RetryConfig → ℕ
base_of none = 0
base_of (some cfg) = cfg.backoff_ms

-- `Math.floor(Math.random() * base)`, where jitter is asked for
abbrev pub jitter_of : Option RetryConfig → ℕ → ℕ
jitter_of none random = 0
jitter_of (some cfg) random = if cfg.jitter then random else 0

unfoldable pub delay_of : Option RetryConfig → (ℕ → ℕ) → ℕ → ℕ
delay_of cfg random attempt = base_of cfg * 2 ^ (attempt - 1) + jitter_of cfg (random attempt)

-- How a retried call ends: its result, how often the method was called, and the sleeps.
pub record Trace (E R : Type 0) : Type 0 where
  pub result : Result E R
  pub calls : ℕ
  pub sleeps : List ℕ

module _ {E R : Type 0} (cfg : Option RetryConfig) (random : ℕ → ℕ) (call : ℕ → Result E R)
    (aborted : ℕ → Option E) where
  -- A sleep of no time is over at once, and no abort ends it.
  unfoldable pub sleep : ℕ → ℕ → Option E
  sleep attempt ms = if nat_eq ms 0 then none else aborted attempt

  abbrev pub then_sleep : ℕ → Trace E R → Trace E R
  then_sleep ms t = record t { calls = suc t.calls; sleeps = ms ∷ t.sleeps }

  abbrev pub after_failure : ℕ → E → ℕ → Option E → Trace E R → Trace E R
  after_failure attempt e ms (some reason) rest = record {
    result = throw reason;
    calls = 1;
    sleeps = ms ∷ [];
  }
  after_failure attempt e ms none rest = then_sleep ms rest

  -- The loop from an attempt on, with as many rounds left.
  unfoldable pub retry_from : ℕ → ℕ → E → Trace E R
  unfolding sleep delay_of
  retry_from zero attempt last_err = record { result = throw last_err; calls = 0; sleeps = [] }
  retry_from (suc rounds) attempt last_err =
      let rest : E → Trace E R = retry_from rounds (suc attempt) in
      elim (call attempt) [
        | ok r ↦ record { result = ok r; calls = 1; sleeps = [] }
        | throw e ↦
            if leb (attempts_of cfg) attempt
            then record { result = throw e; calls = 1; sleeps = [] }
            else after_failure attempt e (delay_of cfg random attempt)
                (sleep attempt (delay_of cfg random attempt)) (rest e)
      ]

  unfoldable pub run_with_retry : E → Trace E R
  unfolding retry_from
  run_with_retry undefined_err = retry_from (attempts_of cfg) 1 undefined_err
