-- ===== src/Strategies.antt =====
-- What a rule does once its `when` tree holds: engine/src/engine/strategy-handlers.ts, with the
-- queues of engine/src/engine/actions.ts. A handler works on the state of one evaluation and keeps
-- its writes when it throws. The abort signal is a number of checks after which it is seen. The time is
-- an argument.
pub mod Tally
pub mod Verdicts
use test_assestment.Common.{
  ℕ, zero, suc, ◌+◌, String, Bool, true, false, Option, none, some, get_or, List, [], ◌∷◌, ◌++◌,
  leb, if◌then◌else◌, length, map, Result, ok, throw,
}
use test_assestment.JsMap.{Map, get}
use test_assestment.Duration.{Duration, parse_duration}
use test_assestment.Entities.{
  Value, Error, error, duration_error, BaseCtx, AggregateEntryView, AggregatedCtx, RegisteredAction,
  RegisteredAggregatedAction, AnyRegisteredAction, action, aggregated_action, scheduled_action,
  ActionAttachment, RuleStrategy, plain, aggregate, schedule, AggregateStrategy, ScheduleStrategy,
  RegisteredRule,
}
use test_assestment.Arguments.{merge_action_args}
use test_assestment.Actions.{Settled}
use test_assestment.Predicates.{Evaluation}
use test_assestment.AggregationStore
use test_assestment.AggregationStore.{AggregationEntry, Buckets, append_and_count}
use test_assestment.ScheduledStore.{Store, enqueue}

pub data SkipReason : Type 0 where
  when_false aggregate_below_threshold scheduled_enqueued : SkipReason

pub data RunEvent : Type 0 where
  matched : String → RunEvent
  skipped : String → SkipReason → RunEvent
  aggregate_appended : String → String → String → ℕ → RunEvent
  enqueued : String → String → ℕ → RunEvent

-- An action that waits for the end of the evaluation, with all that its function closes over.
pub data PendingAction : Type 0 where
  pending_plain : RegisteredAction → ActionAttachment → BaseCtx → PendingAction
  pending_aggregated :
      RegisteredAggregatedAction → ActionAttachment → BaseCtx → String → String → ℕ → PendingAction

pub record Run : Type 0 where
  pub agg_store : Buckets Value
  pub sched_store : Store Value
  pub evaluation : Evaluation
  pub pending : List PendingAction
  pub events : List RunEvent
  pub aborts : Option (ℕ × Error)

abbrev pub Step : Type 0 → Type 0
Step A = Run → Result Error A × Run

infixl 5 ◌>>=◌
unfoldable pub ◌>>=◌ : {A B : Type 0} → Step A → (A → Step B) → Step B
(m >>= f) s = elim (m s).0 [ ok a ↦ f a (m s).1 | throw e ↦ (throw e, (m s).1) ]

abbrev pub done : {A : Type 0} → A → Step A
done a s = (ok a, s)

abbrev pub lift : {A : Type 0} → Result Error A → Step A
lift r s = (r, s)

abbrev pub emit : RunEvent → Step (Unit {0})
emit event s = (ok tt, record s { events = s.events ++ event ∷ [] })

abbrev pub see_abort : Option (ℕ × Error) → Run → Result Error (Unit {0}) × Run
see_abort none s = (ok tt, s)
see_abort (some (zero, e)) s = (throw e, s)
see_abort (some (suc n, e)) s = (ok tt, record s { aborts = some (n, e) })

abbrev pub throw_if_aborted : Step (Unit {0})
throw_if_aborted s = see_abort s.aborts s

abbrev pub enqueue_pending : PendingAction → Step (Unit {0})
enqueue_pending p s = (ok tt, record s { pending = s.pending ++ p ∷ [] })

abbrev pub duration_ms : Duration → Result Error ℕ
duration_ms d = elim (parse_duration d) [ ok ms ↦ ok ms | throw e ↦ throw (duration_error e) ]

-- A store whose arrays are read out of bounds does not go on.
abbrev pub run_append : String → String → String → AggregationEntry Value → ℕ → ℕ → Step ℕ
run_append rule agg key entry window_ms now s =
    elim (append_and_count rule agg key entry window_ms now s.agg_store) [
      | none ↦ (throw (error "out of bounds"), s)
      | some (n, st) ↦ (ok n, record s { agg_store = st })
    ]

module _ (known : Map AnyRegisteredAction) (rule : RegisteredRule) (ctx : BaseCtx) (now : ℕ) where
  abbrev pub queue_plain_action : ActionAttachment → Step (Unit {0})
  queue_plain_action att s = elim (get att.name known) [
    | none ↦ (ok tt, s)
    | some found ↦ elim found [
      | action a ↦ enqueue_pending (pending_plain a att ctx) s
      | _ ↦ (ok tt, s)
    ]
  ]

  unfoldable pub queue_plain_actions : List ActionAttachment → Step (Unit {0})
  queue_plain_actions [] s = (ok tt, s)
  queue_plain_actions (att ∷ atts) s = queue_plain_actions atts (queue_plain_action att s).1

  unfoldable pub handle_plain_strategy : Step Bool
  unfolding queue_plain_actions ◌>>=◌
  handle_plain_strategy = do
    u ← throw_if_aborted
    u ← emit (matched rule.name)
    u ← queue_plain_actions rule.actions
    done true

  abbrev pub queue_reached : Bool → PendingAction → Step (Unit {0})
  queue_reached true p = enqueue_pending p
  queue_reached false p = done tt

  -- One round of the loop over the attachments: whether the count reached the threshold.
  unfoldable pub append_for :
      ℕ → String → ℕ → ℕ → ActionAttachment → RegisteredAggregatedAction → Step Bool
  unfolding ◌>>=◌
  append_for threshold key_id at window_ms att agg = do
    payload ← lift (agg.transform ctx)
    u ← throw_if_aborted
    count ←
        run_append rule.name agg.name key_id
          (record { at = at; delivery_id = ctx.delivery_id; payload = payload }) window_ms now
    u ← emit (aggregate_appended rule.name agg.name key_id count)
    let reached = leb threshold count
    u ← queue_reached reached (pending_aggregated agg att ctx rule.name key_id window_ms)
    done reached

  abbrev pub append_found :
      ℕ → String → ℕ → ℕ → ActionAttachment → Option AnyRegisteredAction → Step Bool
  append_found threshold key_id at window_ms att none = done false
  append_found threshold key_id at window_ms att (some (action a)) = done false
  append_found threshold key_id at window_ms att (some (aggregated_action a)) =
      append_for threshold key_id at window_ms att a
  append_found threshold key_id at window_ms att (some (scheduled_action a)) = done false

  unfoldable pub append_all : ℕ → String → ℕ → ℕ → Bool → List ActionAttachment → Step Bool
  unfolding ◌>>=◌ append_for
  append_all threshold key_id at window_ms fired [] = done fired
  append_all threshold key_id at window_ms fired (att ∷ atts) = do
    b ← append_found threshold key_id at window_ms att (get att.name known)
    append_all threshold key_id at window_ms (if b then true else fired) atts

  abbrev pub entry_time : Option (BaseCtx → Result Error ℕ) → Result Error ℕ
  entry_time none = ok ctx.now
  entry_time (some at) = at ctx

  unfoldable pub conclude : Bool → Step Bool
  unfolding ◌>>=◌ queue_plain_actions
  conclude true = do u ← emit (matched rule.name); u ← queue_plain_actions rule.actions; done true
  conclude false = do u ← emit (skipped rule.name aggregate_below_threshold); done false

  unfoldable pub handle_aggregate_strategy : AggregateStrategy → Step Bool
  unfolding ◌>>=◌ append_all conclude
  handle_aggregate_strategy strat = do
    u ← throw_if_aborted
    key_id ← lift (strat.key ctx)
    at ← lift (entry_time strat.at)
    window_ms ← lift (duration_ms strat.window)
    fired ← append_all strat.count key_id at window_ms false rule.actions
    conclude fired

  abbrev pub deadline_ms : Option Duration → Result Error (Option ℕ)
  deadline_ms none = ok none
  deadline_ms (some d) = elim (duration_ms d) [ ok ms ↦ ok (some (now + ms)) | throw e ↦ throw e ]

  abbrev pub run_enqueue : String → ℕ → Value → Option ℕ → Step (Unit {0})
  run_enqueue key_id run_at payload deadline s = (
    ok tt,
    record s { sched_store = enqueue rule.name key_id run_at payload now deadline s.sched_store },
  )

  unfoldable pub handle_schedule_strategy : ScheduleStrategy → Step Bool
  unfolding ◌>>=◌
  handle_schedule_strategy strat = do
    u ← throw_if_aborted
    key_id ← lift (strat.key ctx)
    payload ← lift (strat.transform ctx)
    delay ← lift (duration_ms strat.delay)
    deadline ← lift (deadline_ms strat.deadline)
    u ← run_enqueue key_id (now + delay) payload deadline
    u ← emit (enqueued rule.name key_id (now + delay))
    u ← emit (skipped rule.name scheduled_enqueued)
    done false

  unfoldable pub handle_rule_strategy : RuleStrategy → Step Bool
  unfolding handle_plain_strategy handle_aggregate_strategy handle_schedule_strategy
  handle_rule_strategy plain = handle_plain_strategy
  handle_rule_strategy (aggregate strat) = handle_aggregate_strategy strat
  handle_rule_strategy (schedule strat) = handle_schedule_strategy strat
