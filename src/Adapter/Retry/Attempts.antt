-- ===== src/Adapter/Retry/Attempts.antt =====
-- How a retried call ends.
use test_assestment.Common.{
  ℕ, zero, suc, ◌+◌, ◌-◌, ◌≤◌, ◌<◌, Option, none, some, List, [], ◌∷◌, leb, max, Result, ok, throw,
  ◌≡◌, refl, arith, Result-cases, Option-cases, Bool-cases, inl, inr,
}
use test_assestment.Adapter.Retry.{
  RetryConfig, attempts_of, delay_of, Trace, sleep, then_sleep, retry_from, run_with_retry,
}

module _ {E R : Type 0} (cfg : Option RetryConfig) (random : ℕ → ℕ) (call : ℕ → Result E R)
    (aborted : ℕ → Option E) where
  abbrev pub delay : ℕ → ℕ
  delay attempt = delay_of cfg random attempt

  abbrev pub delays : ℕ → ℕ → List ℕ
  delays attempt zero = []
  delays attempt (suc n) = delay attempt ∷ delays (suc attempt) n

  -- So many calls fail, each with a sleep after it that no abort ends.
  abbrev pub Failures : ℕ → ℕ → Type 0
  Failures attempt zero = Unit
  Failures attempt (suc n) =
      ((e : E) × (call attempt ≡ throw e))
      × (sleep cfg random call aborted attempt (delay attempt) ≡ none)
      × Failures (suc attempt) n

  -- The first call that answers; or the last of all attempts; or a sleep that an abort ends.
  pub data Ends (attempt : ℕ) : Trace E R → Type 0 where
    answered :
        (n last : ℕ) (r : R)
        → last ≡ attempt + n
        → Failures attempt n
        → call last ≡ ok r
        → last ≤ attempts_of cfg
        → Ends attempt (record { result = ok r; calls = suc n; sleeps = delays attempt n })
    exhausted :
        (n last : ℕ) (e : E)
        → last ≡ attempt + n
        → Failures attempt n
        → call last ≡ throw e
        → last ≡ attempts_of cfg
        → Ends attempt (record { result = throw e; calls = suc n; sleeps = delays attempt n })
    interrupted :
        (n last : ℕ) (e reason : E)
        → last ≡ attempt + n
        → Failures attempt n
        → call last ≡ throw e
        → last < attempts_of cfg
        → sleep cfg random call aborted last (delay last) ≡ some reason
        → Ends attempt
            (record { result = throw reason; calls = suc n; sleeps = delays attempt (suc n) })

  then_sleep-Ends :
      (attempt : ℕ) (e : E) (t : Trace E R)
      → call attempt ≡ throw e
      → sleep cfg random call aborted attempt (delay attempt) ≡ none
      → Ends (suc attempt) t
      → Ends attempt (then_sleep cfg random call aborted (delay attempt) t)
  then_sleep-Ends attempt e t c s (answered n last r l f k h) =
      answered (suc n) last r (omega arith) ((e, c), s, f) k h
  then_sleep-Ends attempt e t c s (exhausted n last e' l f k h) =
      exhausted (suc n) last e' (omega arith) ((e, c), s, f) k h
  then_sleep-Ends attempt e t c s (interrupted n last e' reason l f k h i) =
      interrupted (suc n) last e' reason (omega arith) ((e, c), s, f) k h i

  round-Ends :
      (rounds attempt : ℕ) (last_err : E)
      → attempt ≤ attempts_of cfg
      → ((e : E)
          → attempt < attempts_of cfg
          → Ends (suc attempt) (retry_from cfg random call aborted rounds (suc attempt) e))
      → Ends attempt (retry_from cfg random call aborted (suc rounds) attempt last_err)
  unfolding retry_from
  round-Ends rounds attempt last_err h later = elim (Result-cases (call attempt)) [
    | inl (r, c) ↦ rw (c, retry_from) (answered 0 attempt r (omega arith) tt c h)
    | inr (e, c) ↦ elim (Bool-cases (leb (attempts_of cfg) attempt)) [
      | inl b ↦ rw (c, retry_from, b) (exhausted 0 attempt e (omega arith) tt c (ground arith))
      | inr b ↦
          let more : attempt < attempts_of cfg = ground arith in
          elim (Option-cases (sleep cfg random call aborted attempt (delay attempt))) [
            | inr (reason, s) ↦
                rw (c, retry_from, b, s) (interrupted 0 attempt e reason (omega arith) tt c more s)
            | inl s ↦ rw (c, retry_from, b, s) (then_sleep-Ends attempt e _ c s (later e more))
          ]
    ]
  ]

  retry_from-Ends :
      (rounds attempt : ℕ) (last_err : E)
      → attempt + rounds ≡ attempts_of cfg
      → Ends attempt (retry_from cfg random call aborted (suc rounds) attempt last_err)
  retry_from-Ends zero attempt last_err h =
      round-Ends zero attempt last_err (omega arith) (λ e more. absurd (omega arith))
  retry_from-Ends (suc rounds) attempt last_err h =
      round-Ends (suc rounds) attempt last_err (omega arith)
        (λ e more. retry_from-Ends rounds (suc attempt) e (omega arith))

  positive : (o : Option RetryConfig) → (n : ℕ) × (attempts_of o ≡ suc n)
  unfolding attempts_of
  positive none = (0, refl)
  positive (some c) = (max 1 c.attempts - 1, omega arith)

  -- A call with retries ends in one of three ways: with the answer of the first call that fulfils,
  -- among at most as many as there are attempts; with the error of the last of exactly so many
  -- calls, all of which failed; or, before the last, with the reason of an abort that ends the
  -- sleep after a failed call. Each failed call that is tried again is followed by one sleep of
  -- its delay.
  pub run_with_retry-Ends :
      (undefined_err : E) → Ends 1 (run_with_retry cfg random call aborted undefined_err)
  unfolding run_with_retry
  run_with_retry-Ends undefined_err =
      let (n, e) = positive cfg in rw e (retry_from-Ends n 1 undefined_err (omega arith))
