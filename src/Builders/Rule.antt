-- ===== src/Builders/Rule.antt =====
-- rule of engine/src/engine/builders/rule.ts. An attachment without arguments has none to give.
pub mod Made
use test_assestment.Common.{
  String, Bool, true, false, Option, none, some, get_or, List, [], ◌∷◌, ◌++◌, ◌==◌, if◌then◌else◌,
  Result, ok, throw,
}
use test_assestment.Entities.{
  Args, Schema, UseArg, WhenNode, ActionAttachment, AggregateStrategy, ScheduleStrategy,
  RuleStrategy, plain, aggregate, schedule, RegisteredRule, Error,
}
use test_assestment.JsMap.{Map}
use test_assestment.Builders.{is_unset, missing}

pub record RuleState : Type 0 where
  pub name : String
  pub args_schema : Option Schema
  pub event_name : Option String
  pub when : Option WhenNode
  pub strategy : RuleStrategy
  pub actions : List ActionAttachment

pub data RuleCall : Type 0 where
  args : Schema → RuleCall
  on : String → RuleCall
  when_node : WhenNode → RuleCall
  aggregate_by : AggregateStrategy → RuleCall
  schedule_by : ScheduleStrategy → RuleCall
  action : String → Map UseArg → RuleCall

unfoldable pub rule : String → RuleState
rule name = record {
  name = name;
  args_schema = none;
  event_name = none;
  when = none;
  strategy = plain;
  actions = [];
}

unfoldable pub call : RuleCall → RuleState → RuleState
call (args schema) s = record s { args_schema = some schema }
call (on event_name) s = record s { event_name = some event_name }
call (when_node node) s = record s { when = some node }
call (aggregate_by cfg) s = record s { strategy = aggregate cfg }
call (schedule_by cfg) s = record s { strategy = schedule cfg }
call (action name use_args) s = record s {
  actions = s.actions ++ record { name = name; args = use_args } ∷ [];
}

abbrev pub with_actions :
    RuleState
    → Option Args
    → String
    → WhenNode
    → List ActionAttachment
    → Result Error RegisteredRule
with_actions s registration_args event_name node [] = missing "rule" s.name "actions"
with_actions s registration_args event_name node (a ∷ actions) = ok (record {
  name = s.name;
  event_name = event_name;
  args_schema = s.args_schema;
  pinned_args = get_or registration_args [];
  when = some node;
  strategy = s.strategy;
  actions = a ∷ actions;
})

abbrev pub with_when :
    RuleState → Option Args → String → Option WhenNode → Result Error RegisteredRule
with_when s registration_args event_name none = missing "rule" s.name "when predicate"
with_when s registration_args event_name (some node) =
    with_actions s registration_args event_name node s.actions

-- The call of a terminal.
unfoldable pub make_rule_terminal : RuleState → Option Args → Result Error RegisteredRule
make_rule_terminal s registration_args =
    if is_unset s.event_name
    then missing "rule" s.name "event name"
    else with_when s registration_args (get_or s.event_name "") s.when
