-- ===== src/ScheduledStore/Calls.antt =====
-- Sequences of calls of a scheduled store, and what the in-memory store has filed after them.
use test_assestment.Common.{ℕ, String, Option, List, [], ◌∷◌}
use test_assestment.ScheduledStore
use test_assestment.ScheduledStore.{Store}

pub data Call {ℓ} (P : Type ℓ) : Type ℓ where
  enqueue : String → String → ℕ → P → ℕ → Option ℕ → Call P
  claim : ℕ → ℕ → ℕ → Call P
  remove : String → String → Call P
  reschedule : String → String → ℕ → Call P

module _ {ℓ} {P : Type ℓ} where
  unfoldable pub call : Call P → Store P → Store P
  call (enqueue r k run_at payload scheduled_at deadline) st =
      ScheduledStore.enqueue r k run_at payload scheduled_at deadline st
  call (claim now limit lease_ms) st = (ScheduledStore.claim now limit lease_ms st).1
  call (remove r k) st = ScheduledStore.remove r k st
  call (reschedule r k new_run_at) st = ScheduledStore.reschedule r k new_run_at st

  unfoldable pub calls : List (Call P) → Store P → Store P
  unfolding call
  calls [] st = st
  calls (c ∷ cs) st = calls cs (call c st)
