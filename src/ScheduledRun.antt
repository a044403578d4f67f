-- ===== src/ScheduledRun.antt =====
-- One scheduled check: runScheduledCheck of engine/src/engine/scheduled-worker.ts, with the contexts
-- that it makes, engine/src/engine/utility/context-factories.ts. What happens from outside during
-- the check is an argument: the time at its start and at its end, and the error of an abort that
-- comes while the check, or its actions, are at work. The store is that of ScheduledStore.
pub mod Settling
mod Tests
use test_assestment.Common.{
  ℕ, ◌+◌, ◌*◌, String, Bool, true, false, Option, none, some, get_or, List, [], ◌∷◌, ◌++◌,
  str_append, ltb, max, if◌then◌else◌, Result, ok, throw,
}
use test_assestment.JsMap.{Map, get, set, delete}
use test_assestment.Duration.{Duration, DurationError, parse_duration}
use test_assestment.Entities.{
  Value, object, no_fields, Args, Error, duration_error, BaseCtx, UseArg, Schema, CheckCtx,
  ScheduledView, ScheduledCtx, RegisteredAction, RegisteredScheduledAction, AnyRegisteredAction,
  action, aggregated_action, scheduled_action, ActionAttachment, CheckResult, pass, skip, recheck,
  RuleStrategy, plain, aggregate, schedule, ScheduleStrategy, RegisteredRule, Registry,
}
use test_assestment.Arguments.{merge_action_args}
use test_assestment.Actions.{Settled, run_pending_actions}
use test_assestment.ScheduledStore
use test_assestment.ScheduledStore.{ScheduledCheck, Store, claim, reschedule}

pub data ScheduledOutcome : Type 0 where
  passed skipped rechecked deadline_exceeded max_attempts_exceeded : ScheduledOutcome

pub data WorkerEvent : Type 0 where
  scheduled_checked : String → String → ScheduledOutcome → WorkerEvent
  evaluation_failed : String → Error → WorkerEvent

pub record World : Type 0 where
  pub ran_at : ℕ
  pub checked_at : ℕ
  pub check_aborted : Option Error
  pub actions_aborted : Option Error

abbrev pub Check : Type 0
Check = ScheduledCheck Value

abbrev pub scheduled_delivery_id : Check → String
scheduled_delivery_id rec =
    str_append "scheduler:" (str_append rec.rule_id (str_append ":" rec.key_id))

abbrev pub make_scheduled_check_ctx : Check → RegisteredRule → ℕ → CheckCtx
make_scheduled_check_ctx rec rule ran_at = record {
  args = rule.pinned_args;
  delivery_id = scheduled_delivery_id rec;
  now = ran_at;
  payload = rec.payload;
  scheduled_at = rec.scheduled_at;
}

abbrev pub make_scheduled_base_ctx : Check → RegisteredRule → ℕ → BaseCtx
make_scheduled_base_ctx rec rule ran_at = record {
  event = object no_fields;
  args = rule.pinned_args;
  delivery_id = scheduled_delivery_id rec;
  now = ran_at;
  scheduled = none;
}

abbrev pub make_scheduled_view : Check → ℕ → ScheduledView
make_scheduled_view rec ran_at = record {
  payload = rec.payload;
  scheduled_at = rec.scheduled_at;
  ran_at = ran_at;
  key_id = rec.key_id;
}

abbrev pub run_scheduled_action :
    BaseCtx → ScheduledView → Map UseArg → RegisteredScheduledAction → Settled
run_scheduled_action base view use_site sched =
    elim (merge_action_args sched.pinned_args use_site base sched.args_schema) [
      | throw e ↦ throw e
      | ok args ↦
          sched.fn (record {
            args = args;
            delivery_id = base.delivery_id;
            now = base.now;
            scheduled = view;
          })
    ]

abbrev pub run_plain_action : BaseCtx → ScheduledView → Map UseArg → RegisteredAction → Settled
run_plain_action base view use_site plain_action =
    elim (merge_action_args plain_action.pinned_args use_site base plain_action.args_schema) [
      | throw e ↦ throw e
      | ok args ↦ plain_action.fn (record base { args = args; scheduled = some view })
    ]

-- The loop that collects the pending actions of a check that passed.
unfoldable pub scheduled_actions :
    Map AnyRegisteredAction → BaseCtx → ScheduledView → List ActionAttachment → List Settled
scheduled_actions known base view [] = []
scheduled_actions known base view (att ∷ atts) =
    let rest = scheduled_actions known base view atts in
    elim (get att.name known) [
      | none ↦ rest
      | some found ↦ elim found [
        | action a ↦ run_plain_action base view att.args a ∷ rest
        | aggregated_action a ↦ rest
        | scheduled_action a ↦ run_scheduled_action base view att.args a ∷ rest
      ]
    ]

-- A store, and what was emitted.
pub record Progress : Type 0 where
  pub store : Store Value
  pub events : List WorkerEvent

abbrev pub emit_checked : Check → ScheduledOutcome → Progress → Progress
emit_checked rec outcome p = record p {
  events = p.events ++ scheduled_checked rec.rule_id rec.key_id outcome ∷ [];
}

abbrev pub remove_and_emit : Check → ScheduledOutcome → Progress → Progress
remove_and_emit rec outcome p =
    emit_checked rec outcome
      (record p { store = ScheduledStore.remove rec.rule_id rec.key_id p.store })

-- `scope.run(() => runPendingActions(pending, ...))`
abbrev pub run_actions : Option Error → List Settled → Settled
run_actions (some e) pending = throw e
run_actions none pending = run_pending_actions pending "scheduled actions failed"

-- The result of the check: one that throws skips, unless the scope was aborted.
abbrev pub check_result : Option Error → Result Error CheckResult → Result Error CheckResult
check_result (some e) r = throw e
check_result none (ok r) = ok r
check_result none (throw e) = ok skip

abbrev pub is_over : Option ℕ → ℕ → Bool
is_over none run_at = false
is_over (some deadline) run_at = ltb deadline run_at

unfoldable pub settle_recheck : Check → ℕ → Duration → Progress → Settled × Progress
settle_recheck rec now delay p = elim (parse_duration delay) [
  | throw e ↦ (throw (duration_error e), p)
  | ok ms ↦
      if is_over rec.deadline (now + ms)
      then (ok tt, remove_and_emit rec deadline_exceeded p)
      else (
        ok tt,
        emit_checked rec rechecked
            (record p { store = reschedule rec.rule_id rec.key_id (now + ms) p.store }),
      )
]

unfoldable pub settle :
    Map AnyRegisteredAction
    → RegisteredRule
    → World
    → Check
    → CheckResult
    → Progress
    → Settled × Progress
unfolding settle_recheck scheduled_actions
settle known rule w rec pass p =
    elim (run_actions w.actions_aborted (
      scheduled_actions known (make_scheduled_base_ctx rec rule w.ran_at)
        (make_scheduled_view rec w.ran_at) rule.actions)) [
          | throw e ↦ (throw e, p)
          | ok u ↦ (ok tt, remove_and_emit rec passed p)
        ]
settle known rule w rec skip p = (ok tt, remove_and_emit rec skipped p)
settle known rule w rec (recheck delay) p = settle_recheck rec w.checked_at delay p

abbrev pub run_rule :
    Map AnyRegisteredAction
    → RegisteredRule
    → World
    → Check
    → RuleStrategy
    → Progress
    → Settled × Progress
run_rule known rule w rec plain p =
    (ok tt, record p { store = ScheduledStore.remove rec.rule_id rec.key_id p.store })
run_rule known rule w rec (aggregate s) p =
    (ok tt, record p { store = ScheduledStore.remove rec.rule_id rec.key_id p.store })
run_rule known rule w rec (schedule s) p =
    elim (check_result w.check_aborted (s.check (make_scheduled_check_ctx rec rule w.ran_at))) [
      | throw e ↦ (throw e, p)
      | ok result ↦ settle known rule w rec result p
    ]

unfoldable pub run_scheduled_check : Option Registry → World → Check → Progress → Settled × Progress
unfolding settle
run_scheduled_check none w rec p = (ok tt, p)
run_scheduled_check (some reg) w rec p = elim (get rec.rule_id reg.rules) [
  | none ↦ (ok tt, record p { store = ScheduledStore.remove rec.rule_id rec.key_id p.store })
  | some rule ↦ run_rule reg.action_by_name rule w rec rule.strategy p
]
