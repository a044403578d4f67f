-- ===== src/Builders/Tests.antt =====
-- Builders at concrete calls, and the theorems at them.
use test_assestment.Common.{
  ◌≡◌, refl, Bool, true, false, none, some, List, [], ◌∷◌, Result, ok, throw, codes,
}
use test_assestment.Duration.{text}
use test_assestment.Entities.{
  Schema, BaseCtx, AggregatedCtx, inline, AggregateStrategy, aggregate, Error, error, undefined,
}
use test_assestment.Builders.{calls, missing}
use test_assestment.Builders.Rule.{RuleCall, rule, make_rule_terminal}
use test_assestment.Builders.Rule
use test_assestment.Builders.Impl.{
  ActionImpl, ScheduledActionImpl, PredicateImpl, unset, unset_aggregated, call_aggregated,
  aggregated_action, action, AggregatedCall, on, with_args, transform, with_fn, scheduled_action,
  predicate,
}
use test_assestment.Builders.Impl
use test_assestment.Builders.Integration.{IntegState, integration, methods_of, concurrency_of}
use test_assestment.Builders.Integration

abbrev anything : Schema
anything = record { safe_parse = λ args. ok args; partial = none }

abbrev always : BaseCtx → Result Error Bool
always ctx = ok true

abbrev never : BaseCtx → Result Error Bool
never ctx = ok false

abbrev hourly : AggregateStrategy
hourly = record { window = text (codes "1h"); count = 3; key = λ ctx. ok "key"; at = none }

abbrev rule_calls : List RuleCall
rule_calls =
    Rule.on "push"
    ∷ Rule.when_node (inline never)
    ∷ Rule.aggregate_by hourly
    ∷ Rule.action "first" []
    ∷ Rule.on "issues"
    ∷ Rule.action "second" []
    ∷ Rule.when_node (inline always)
    ∷ []

-- Settings replace, actions add up.
rule_made :
    make_rule_terminal (calls Rule.call rule_calls (rule "r")) none
    ≡ ok (record {
      name = "r";
      event_name = "issues";
      args_schema = none;
      pinned_args = [];
      when = some (inline always);
      strategy = aggregate hourly;
      actions = record { name = "first"; args = [] } ∷ record { name = "second"; args = [] } ∷ [];
    })
unfolding make_rule_terminal calls rule Rule.call
rule_made = refl

rule_without_actions :
    make_rule_terminal
      (calls Rule.call (Rule.on "push" ∷ Rule.when_node (inline always) ∷ []) (rule "r"))
      none
    ≡ missing "rule" "r" "actions"
unfolding make_rule_terminal calls rule Rule.call
rule_without_actions = refl

make_rule_terminal-calls_example :
    Rule.Made.Outcome
      (Rule.Made.said "r" rule_calls)
      none
      (make_rule_terminal (calls Rule.call rule_calls (rule "r")) none)
make_rule_terminal-calls_example = Rule.Made.make_rule_terminal-calls "r" rule_calls none

abbrev quiet : AggregatedCtx → Result Error (Unit {0})
quiet ctx = ok tt

abbrev loud : AggregatedCtx → Result Error (Unit {0})
loud ctx = throw (error "loud")

abbrev aggregated_calls : List AggregatedCall
aggregated_calls =
    on "push" ∷ with_args anything ∷ transform (λ ctx. ok undefined) ∷ with_fn quiet ∷ []

-- An implementation that is set after the factory was called is the one that runs.
late_impl :
    let now = calls call_aggregated aggregated_calls unset_aggregated in
    aggregated_action "a" now (calls call_aggregated (with_fn loud ∷ []) now) none
    ≡ ok (record {
      name = "a";
      event_name = "push";
      args_schema = some anything;
      pinned_args = [];
      transform = λ ctx. ok undefined;
      fn = loud;
    })
unfolding aggregated_action calls call_aggregated unset_aggregated
late_impl = refl

abbrev acts : List (Impl.ImplCall ActionImpl)
acts = Impl.args anything ∷ Impl.fn (λ ctx. ok tt) ∷ []

abbrev is_push : List (Impl.ImplCall PredicateImpl)
is_push = Impl.args anything ∷ Impl.fn always ∷ []

abbrev configured : IntegState
configured =
    calls Integration.call (concurrency_of 2 ∷ concurrency_of 5 ∷ []) (integration "classifier")

configured_limit : configured.concurrency ≡ some 5
unfolding calls Integration.call integration
configured_limit = refl
