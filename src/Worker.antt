-- ===== src/Worker.antt =====
-- The worker of scheduled checks, engine/src/engine/scheduled-worker.ts: its timer, its count of
-- attempts and its rounds over the claimed records.
pub mod Attempts
pub mod Ticks
mod Tests
use test_assestment.Common.{
  ℕ, ◌+◌, ◌*◌, String, Bool, true, false, Option, none, some, get_or, List, [], ◌∷◌, ◌++◌, ◌||◌,
  not, str_append, ltb, max, if◌then◌else◌, Result, ok, throw,
}
use test_assestment.JsMap.{Map, get, set, delete}
use test_assestment.Duration.{Duration, DurationError, parse_duration}
use test_assestment.Entities.{
  Value, object, no_fields, Args, Error, duration_error, BaseCtx, UseArg, Schema, CheckCtx,
  ScheduledView, ScheduledCtx, RegisteredAction, RegisteredScheduledAction, AnyRegisteredAction,
  action, aggregated_action, scheduled_action, ActionAttachment, CheckResult, pass, skip, recheck,
  RuleStrategy, plain, aggregate, schedule, ScheduleStrategy, RegisteredRule, Registry,
}
use test_assestment.Arguments.{merge_action_args}
use test_assestment.Actions.{Settled, run_pending_actions}
use test_assestment.ScheduledStore
use test_assestment.ScheduledStore.{ScheduledCheck, Store, claim, reschedule}
use test_assestment.ScheduledRun.{
  max_attempts_exceeded, WorkerEvent, evaluation_failed, World, Check, scheduled_delivery_id,
  Progress, remove_and_emit, run_scheduled_check,
}

-- `started`, `stopped`, and whether `schedTimer` is set.
pub record Timer : Type 0 where
  pub started : Bool
  pub stopped : Bool
  pub armed : Bool

unfoldable pub create : Timer
create = record { started = false; stopped = false; armed = false }

unfoldable pub schedule_next_tick : Timer → Timer
schedule_next_tick t = if not t.started || t.stopped then t else record t { armed = true }

unfoldable pub start : Timer → Timer
unfolding schedule_next_tick
start t = if t.started then t else schedule_next_tick (record t { started = true; stopped = false })

unfoldable pub stop : Timer → Timer
stop t = record { started = false; stopped = true; armed = false }

-- The callback of the timer: whether a claim is processed, and the timer.
unfoldable pub run_tick : Bool → Timer → Bool × Timer
unfolding schedule_next_tick
run_tick has_registry t =
    let t' = schedule_next_tick (record t { armed = false }) in
    (not (t'.stopped || not has_registry), t')

abbrev pub default_scheduled_max_attempts : ℕ
default_scheduled_max_attempts = 10

pub record Worker : Type 0 where
  pub attempts : Map ℕ
  pub progress : Progress

-- The parts of an attempt key, joined by a NUL; `show` writes a number.
module _ (show : ℕ → String) where
  abbrev pub attempt_key : Check → String
  attempt_key rec =
      str_append rec.rule_id
        (str_append "\0" (str_append rec.key_id (str_append "\0" (show rec.scheduled_at))))

  abbrev pub clear_attempts : Check → Worker → Worker
  clear_attempts rec w = record w { attempts = delete (attempt_key rec) w.attempts }

  unfoldable pub handle_scheduled_failure : Check → Worker → Worker
  handle_scheduled_failure rec w =
      let attempts = get_or (get (attempt_key rec) w.attempts) 0 + 1 in
      if ltb attempts default_scheduled_max_attempts
      then record w { attempts = set (attempt_key rec) attempts w.attempts }
      else record {
        attempts = delete (attempt_key rec) w.attempts;
        progress = remove_and_emit rec max_attempts_exceeded w.progress;
      }

  unfoldable pub fail_check : Check → Error → Worker → Worker
  unfolding handle_scheduled_failure
  fail_check rec e w = handle_scheduled_failure rec (record w {
    progress = record w.progress {
      events = w.progress.events ++ evaluation_failed (scheduled_delivery_id rec) e ∷ [];
    };
  })

  -- One round of the loop over the claimed records.
  unfoldable pub process_record : Option Registry → World → Check → Worker → Worker
  unfolding fail_check run_scheduled_check
  process_record reg world rec w =
      let (settled, progress) = run_scheduled_check reg world rec w.progress in
      elim settled [
        | ok u ↦ clear_attempts rec (record w { progress = progress })
        | throw e ↦ fail_check rec e (record w { progress = progress })
      ]

  unfoldable pub process_records : Option Registry → (Check → World) → List Check → Worker → Worker
  unfolding process_record
  process_records reg world [] w = w
  process_records reg world (rec ∷ recs) w =
      process_records reg world recs (process_record reg (world rec) rec w)

  unfoldable pub process_claim : Option Registry → (Check → World) → ℕ → ℕ → Worker → Worker
  unfolding process_records
  process_claim reg world now poll_ms w =
      let (claimed, store) = claim now 100 (max (poll_ms * 2) 30_000) w.progress.store in
      process_records reg world claimed
        (record w { progress = record w.progress { store = store } })
