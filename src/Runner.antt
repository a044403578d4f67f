-- ===== src/Runner.antt =====
-- The evaluation of one event, engine/src/engine/evaluation-runner.ts: the rules on the event in
-- order, then all actions that they queued. Each rule reads the time of an argument.
pub mod Counts
mod Tests
use test_assestment.Common.{
  ℕ, zero, suc, ◌+◌, String, Bool, true, false, Option, none, some, get_or, List, [], ◌∷◌, ◌++◌,
  map, length, if◌then◌else◌, Result, ok, throw,
}
use test_assestment.JsMap.{Map, get}
use test_assestment.Entities.{
  Value, Args, Error, error, BaseCtx, WhenNode, UseRef, RegisteredPredicate, RegisteredAction,
  RegisteredAggregatedAction, AnyRegisteredAction, ActionAttachment, RegisteredRule, Registry,
}
use test_assestment.Arguments.{merge_action_args}
use test_assestment.Actions.{Settled, run_pending_actions}
use test_assestment.Predicates.{Evaluation, evaluate_rule_when}
use test_assestment.AggregationStore
use test_assestment.AggregationStore.{AggregationEntry, Buckets}
use test_assestment.Strategies.{
  skipped, when_false, PendingAction, pending_plain, pending_aggregated, Run, Step, ◌>>=◌, done,
  lift, emit, throw_if_aborted, handle_rule_strategy,
}

pub record EventEnvelope : Type 0 where
  pub name : String
  pub payload : Value

-- `makeRuleBaseCtx`
abbrev pub make_rule_base_ctx : RegisteredRule → EventEnvelope → String → ℕ → BaseCtx
make_rule_base_ctx rule envelope delivery_id started_at = record {
  event = envelope.payload;
  args = rule.pinned_args;
  delivery_id = delivery_id;
  now = started_at;
  scheduled = none;
}

-- The function of a queued aggregated action: it lists its window when it runs.
abbrev pub run_aggregated :
    RegisteredAggregatedAction
    → ActionAttachment
    → BaseCtx
    → String
    → ℕ
    → List (AggregationEntry Value)
    → Settled
run_aggregated agg att ctx key_id window_ms entries =
    elim (merge_action_args agg.pinned_args att.args ctx agg.args_schema) [
      | throw e ↦ throw e
      | ok args ↦ agg.fn (record {
        base = record ctx { args = args };
        aggregate = record {
          entries =
              map (λ e. record { at = e.at; delivery_id = e.delivery_id; payload = e.payload })
                entries;
          count = length entries;
          window_ms = window_ms;
          key_id = key_id;
        };
      })
    ]

abbrev pub run_plain : RegisteredAction → ActionAttachment → BaseCtx → Settled
run_plain plain_action att ctx =
    elim (merge_action_args plain_action.pinned_args att.args ctx plain_action.args_schema) [
      | throw e ↦ throw e
      | ok args ↦ plain_action.fn (record ctx { args = args })
    ]

unfoldable pub run_pending : ℕ → PendingAction → Buckets Value → Settled × Buckets Value
run_pending now (pending_plain a att ctx) st = (run_plain a att ctx, st)
run_pending now (pending_aggregated agg att ctx rule key_id window_ms) st =
    elim (AggregationStore.list rule agg.name key_id window_ms now st) [
      | none ↦ (throw (error "out of bounds"), st)
      | some (entries, st') ↦ (run_aggregated agg att ctx key_id window_ms entries, st')
    ]

unfoldable pub settle_all : ℕ → List PendingAction → Buckets Value → List Settled × Buckets Value
unfolding run_pending
settle_all now [] st = ([], st)
settle_all now (p ∷ ps) st =
    let (settled, st') = run_pending now p st in
    let (rest, st'') = settle_all now ps st' in (settled ∷ rest, st'')

-- A run starts with no memo and no pending action.
abbrev pub begin : Run → Run
begin s = record s { evaluation = record s.evaluation { memo = [] }; pending = [] }

-- The pending actions, where there are any.
abbrev pub finish : ℕ → List PendingAction → Step (Unit {0})
finish now [] s = (ok tt, s)
finish now (p ∷ ps) s = elim (throw_if_aborted s).0 [
  | throw e ↦ (throw e, (throw_if_aborted s).1)
  | ok u ↦
      let (settled, st) = settle_all now (p ∷ ps) (throw_if_aborted s).1.agg_store in
      (
        run_pending_actions settled "multiple actions failed",
        record (throw_if_aborted s).1 { agg_store = st },
      )
]

module _ (json : Args → String) (reg : Registry) (envelope : EventEnvelope) (delivery_id : String)
    (started_at : ℕ) (clock : RegisteredRule → ℕ) where
  abbrev pub walk_when : BaseCtx → WhenNode → Step Bool
  walk_when ctx n s =
      let (b, evaluation) = evaluate_rule_when json reg.predicates ctx n s.evaluation in
      (ok b, record s { evaluation = evaluation })

  unfoldable pub check_when : BaseCtx → Option WhenNode → Step Bool
  unfolding ◌>>=◌
  check_when ctx none = done true
  check_when ctx (some n) = do b ← walk_when ctx n; u ← throw_if_aborted; done b

  unfoldable pub apply_rule : RegisteredRule → BaseCtx → Bool → Step Bool
  unfolding ◌>>=◌ handle_rule_strategy
  apply_rule rule ctx true =
      handle_rule_strategy reg.action_by_name rule ctx (clock rule) rule.strategy
  apply_rule rule ctx false = do u ← emit (skipped rule.name when_false); done false

  unfoldable pub run_rule : RegisteredRule → Step Bool
  unfolding ◌>>=◌ check_when apply_rule
  run_rule rule = do
    u ← throw_if_aborted
    let ctx = make_rule_base_ctx rule envelope delivery_id started_at
    holds ← check_when ctx rule.when
    apply_rule rule ctx holds

  unfoldable pub run_rules : List RegisteredRule → Step ℕ
  unfolding ◌>>=◌ run_rule
  run_rules [] = done 0
  run_rules (rule ∷ rules) = do
    fired ← run_rule rule
    n ← run_rules rules
    done (if fired then suc n else n)

  abbrev pub run_queued : ℕ → Step (Unit {0})
  run_queued now s = finish now s.pending s

  unfoldable pub run_begun : ℕ → Step ℕ
  unfolding ◌>>=◌ run_rules settle_all
  run_begun now = do
    matched_count ← run_rules (get_or (get envelope.name reg.dispatch) [])
    u ← run_queued now
    done matched_count

  -- `run(opts)`, with the count of the rules that matched
  unfoldable pub run : ℕ → Step ℕ
  unfolding run_begun
  run now s = run_begun now (begin s)
