-- ===== src/Runner/Tests.antt =====
-- Three rules on one event, and the theorem at their evaluation.
use test_assestment.Common.{
  ℕ, String, Bool, true, false, none, some, List, [], ◌∷◌, ◌≡◌, refl, Result, ok,
}
use test_assestment.JsMap.{get, set}
use test_assestment.Duration.{num, parse_duration}
use test_assestment.Entities.{
  null, Error, inline, RegisteredAction, action, plain, schedule, skip, RuleStrategy,
  RegisteredRule, Registry,
}
use test_assestment.Arguments.{merge_action_args, resolve_args, overlay}
use test_assestment.Actions.{run_pending_actions, rejections, raise}
use test_assestment.Predicates.{evaluate_rule_when}
use test_assestment.When.{evaluate_when, evaluate_node}
use test_assestment.ScheduledStore.{enqueue, lease_key}
use test_assestment.Strategies.{
  Run, matched, skipped, enqueued, when_false, scheduled_enqueued, ◌>>=◌, queue_plain_actions,
  handle_plain_strategy, handle_schedule_strategy, handle_rule_strategy,
}
use test_assestment.Runner.{
  EventEnvelope, run_pending, settle_all, check_when, apply_rule, run_rule, run_rules, run_begun,
  run,
}
use test_assestment.Runner.Counts
use test_assestment.Runner.Counts.{Accounts}

abbrev note : RegisteredAction
note = record { name = "note"; args_schema = none; pinned_args = []; fn = λ ctx. ok tt }

abbrev rule_of : String → Bool → RuleStrategy → RegisteredRule
rule_of name holds strategy = record {
  name = name;
  event_name = "push";
  args_schema = none;
  pinned_args = [];
  when = some (inline (λ ctx. ok holds));
  strategy = strategy;
  actions = record { name = "note"; args = [] } ∷ [];
}

abbrev later : RuleStrategy
later = schedule (record {
  delay = num 5;
  deadline = none;
  key = λ ctx. ok "k";
  transform = λ ctx. ok null;
  check = λ ctx. ok skip;
})

abbrev rules : List RegisteredRule
rules = rule_of "a" true plain ∷ rule_of "b" false plain ∷ rule_of "c" true later ∷ []

abbrev reg : Registry
reg = record {
  predicates = [];
  actions = ("note", note) ∷ [];
  aggregated_actions = [];
  scheduled_actions = [];
  integrations = [];
  rules = [];
  action_by_name = ("note", action note) ∷ [];
  dispatch = ("push", rules) ∷ [];
}

abbrev idle : Run
idle = record {
  agg_store = [];
  sched_store = record { records = []; leases = [] };
  evaluation = record { memo = []; events = [] };
  pending = [];
  events = [];
  aborts = none;
}

abbrev push : EventEnvelope
push = record { name = "push"; payload = null }

store : Unit {0}
unfolding run run_begun run_rules run_rule check_when apply_rule settle_all run_pending
    handle_rule_strategy handle_plain_strategy handle_schedule_strategy queue_plain_actions ◌>>=◌
    evaluate_rule_when evaluate_when evaluate_node run_pending_actions rejections raise
    merge_action_args resolve_args overlay parse_duration enqueue lease_key get set
store = tt

abbrev evaluated : Result Error ℕ × Run
evaluated = run (λ m. "{}") reg push "d" 7 (λ r. 8) 9 idle

evaluates :
    (evaluated.0 ≡ ok 1)
    × (evaluated.1.events
        ≡ matched "a"
          ∷ skipped "b" when_false
          ∷ enqueued "c" "k" 13
          ∷ skipped "c" scheduled_enqueued
          ∷ [])
unfolding store
evaluates = (refl, refl)

run-Accounts_example : Accounts (λ m. "{}") reg push "d" 7 (λ r. 8) rules idle evaluated.1 1
unfolding get
run-Accounts_example = Counts.run-Accounts (λ m. "{}") reg push "d" 7 (λ r. 8) 9 idle 1 evaluates.0
