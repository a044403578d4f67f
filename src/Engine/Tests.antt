-- ===== src/Engine/Tests.antt =====
-- An engine with one rule, and the theorem at its first event.
use test_assestment.Common.{ℕ, String, true, none, some, [], ◌∷◌, ◌≡◌, refl, ok}
use test_assestment.JsMap.{get, set}
use test_assestment.Entities.{null, Args, inline, plain, RegisteredRule, RegisterBatch, Registry}
use test_assestment.Issues.{add_unique, add_action_lookup}
use test_assestment.Checks.{check_use, check_attachments, check_rule, validate_args}
use test_assestment.Registration.{
  concat_map, collect, invalid_issues, all_issues, registry_of, build_registry, add_to_dispatch,
}
use test_assestment.Predicates.{evaluate_rule_when}
use test_assestment.When.{evaluate_when, evaluate_node}
use test_assestment.Strategies.{
  ◌>>=◌, queue_plain_actions, handle_plain_strategy, handle_rule_strategy,
}
use test_assestment.Runner.{
  EventEnvelope, check_when, apply_rule, run_rule, run_rules, run_begun, run,
}
use test_assestment.Worker
use test_assestment.Engine.{
  evaluation_completed, Engine, register, run_evaluation, evaluate_with, evaluate,
}
use test_assestment.Engine.EndToEnd
use test_assestment.Engine.EndToEnd.{Reported}

abbrev always : RegisteredRule
always = record {
  name = "always";
  event_name = "push";
  args_schema = none;
  pinned_args = [];
  when = some (inline (λ ctx. ok true));
  strategy = plain;
  actions = [];
}

abbrev batch : RegisterBatch
batch = record {
  predicates = [];
  actions = [];
  aggregated_actions = [];
  scheduled_actions = [];
  integrations = [];
  rules = always ∷ [];
}

abbrev new : Engine
new = record {
  registry = none;
  run_state = record {
    agg_store = [];
    sched_store = record { records = []; leases = [] };
    evaluation = record { memo = []; events = [] };
    pending = [];
    events = [];
    aborts = none;
  };
  events = [];
  timer = Worker.create;
}

abbrev push : EventEnvelope
push = record { name = "push"; payload = null }

store : Unit {0}
unfolding register build_registry collect all_issues invalid_issues registry_of add_to_dispatch
    concat_map add_unique add_action_lookup check_rule check_use check_attachments validate_args
    evaluate evaluate_with run_evaluation run run_begun run_rules run_rule check_when apply_rule
    handle_rule_strategy handle_plain_strategy queue_plain_actions ◌>>=◌ evaluate_rule_when
    evaluate_when evaluate_node get set
store = tt

abbrev json : Args → String
json m = "{}"

abbrev clock : RegisteredRule → ℕ
clock r = 8

completes :
    (evaluate json clock 7 9 none push "d" (register batch new).1).1.events
    ≡ evaluation_completed "d" 1 ∷ []
unfolding store
completes = refl

evaluate-register_example :
    (reg : Registry) × Reported json reg clock 7 batch push "d"
      (register batch new).1
      (evaluate json clock 7 9 none push "d" (register batch new).1).1
unfolding store
evaluate-register_example = EndToEnd.evaluate-register json clock 7 9 batch push "d" new refl refl
