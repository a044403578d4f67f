-- ===== src/PostgresStorage/Checks/Calls.antt =====
-- Sequences of calls of the table.
use test_assestment.Common.{String, Bool, List, [], ◌∷◌}
use test_assestment.ScheduledStore.Calls.{Call}
use test_assestment.PostgresStorage.Checks.{CheckRow, enqueue, claim, remove, reschedule}

module _ {ℓ} {P : Type ℓ} (stored : P → P) (text_lt : String → String → Bool)
    (returned : List (CheckRow P) → List (CheckRow P)) where
  unfoldable pub call : Call P → List (CheckRow P) → List (CheckRow P)
  call (Call.enqueue r k run_at payload scheduled_at deadline) rows =
      enqueue stored r k run_at payload scheduled_at deadline rows
  call (Call.claim now limit lease_ms) rows = (claim text_lt returned now limit lease_ms rows).1
  call (Call.remove r k) rows = remove r k rows
  call (Call.reschedule r k new_run_at) rows = reschedule r k new_run_at rows

  unfoldable pub calls : List (Call P) → List (CheckRow P) → List (CheckRow P)
  unfolding call
  calls [] rows = rows
  calls (c ∷ cs) rows = calls cs (call c rows)
