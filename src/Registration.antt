-- ===== src/Registration.antt =====
-- buildRegistry of engine/src/engine/registration.ts: a batch becomes a registry, or a list of all
-- that is wrong with it. The adapters of the integrations are modelled on their own.
pub mod Nothing
pub mod Trees
pub mod Attachments
pub mod Dispatch
pub mod Accepted
pub mod Formula
mod Tests
use test_assestment.Common.{
  String, Bool, true, false, Option, none, some, List, [], ◌∷◌, ◌++◌, map, get_or, Result, ok,
  throw,
}
use test_assestment.JsMap.{Map, get, set, values}
use test_assestment.Entities.{
  AnyRegisteredAction, action, aggregated_action, scheduled_action, RegisteredPredicate,
  RegisteredAction, RegisteredAggregatedAction, RegisteredScheduledAction, RegisteredIntegration,
  RegisteredRule, RegisterBatch, Registry,
}
use test_assestment.Issues.{
  RegistrationIssue, predicate_kind, action_kind, aggregated_action_kind, scheduled_action_kind,
  rule_kind, integration_kind, add_unique, add_action_lookup,
}
use test_assestment.Checks.{check_rule, validate_args}

module _ {A B : Type 0} (f : A → List B) where
  unfoldable pub concat_map : List A → List B
  concat_map [] = []
  concat_map (x ∷ xs) = f x ++ concat_map xs

unfoldable pub add_to_dispatch :
    Map (List RegisteredRule) → List RegisteredRule → Map (List RegisteredRule)
add_to_dispatch index [] = index
add_to_dispatch index (r ∷ rules) =
    add_to_dispatch (set r.event_name (get_or (get r.event_name index) [] ++ r ∷ []) index) rules

-- The maps, and the issues of the names.
pub record Collected : Type 0 where
  pub predicates : Map RegisteredPredicate
  pub actions : Map RegisteredAction
  pub aggregated_actions : Map RegisteredAggregatedAction
  pub scheduled_actions : Map RegisteredScheduledAction
  pub integrations : Map RegisteredIntegration
  pub rules : Map RegisteredRule
  pub action_by_name : Map AnyRegisteredAction
  pub issues : List RegistrationIssue

unfoldable pub collect : RegisterBatch → Collected
unfolding add_unique add_action_lookup
collect batch =
    let (ps, i1) = add_unique (λ p. p.name) predicate_kind [] batch.predicates in
    let (actions, i2) = add_unique (λ a. a.name) action_kind [] batch.actions in
    let (aggregated, i3) =
      add_unique (λ a. a.name) aggregated_action_kind [] batch.aggregated_actions in
    let (scheduled, i4) =
      add_unique (λ a. a.name) scheduled_action_kind [] batch.scheduled_actions in
    let (integrations, i5) = add_unique (λ i. i.name) integration_kind [] batch.integrations in
    let (rules, i6) = add_unique (λ r. r.name) rule_kind [] batch.rules in
    let (by_name, i7) = add_action_lookup [] (
      map action (values actions)
      ++ (map aggregated_action (values aggregated) ++ map scheduled_action (values scheduled))) in
    record {
      predicates = ps;
      actions = actions;
      aggregated_actions = aggregated;
      scheduled_actions = scheduled;
      integrations = integrations;
      rules = rules;
      action_by_name = by_name;
      issues = i1 ++ (i2 ++ (i3 ++ (i4 ++ (i5 ++ (i6 ++ i7)))));
    }

-- The second pass
unfoldable pub invalid_issues : Collected → List RegistrationIssue
unfolding concat_map validate_args
invalid_issues c =
    concat_map (λ p. validate_args p.args_schema p.pinned_args predicate_kind p.name true)
      (values c.predicates)
    ++ (concat_map (λ a. validate_args a.args_schema a.pinned_args action_kind a.name true)
          (values c.actions)
        ++ (concat_map
              (λ a. validate_args a.args_schema a.pinned_args aggregated_action_kind a.name true)
              (values c.aggregated_actions)
            ++ (concat_map
                  (λ a. validate_args a.args_schema a.pinned_args scheduled_action_kind a.name true)
                  (values c.scheduled_actions)
                ++ concat_map
                    (λ r. validate_args r.args_schema r.pinned_args rule_kind r.name false)
                    (values c.rules))))

unfoldable pub all_issues : Collected → List RegistrationIssue
unfolding concat_map check_rule invalid_issues
all_issues c =
    c.issues
    ++ (concat_map (check_rule c.predicates c.action_by_name) (values c.rules) ++ invalid_issues c)

unfoldable pub registry_of : Collected → Registry
unfolding add_to_dispatch
registry_of c = record {
  predicates = c.predicates;
  actions = c.actions;
  aggregated_actions = c.aggregated_actions;
  scheduled_actions = c.scheduled_actions;
  integrations = c.integrations;
  rules = c.rules;
  action_by_name = c.action_by_name;
  dispatch = add_to_dispatch [] (values c.rules);
}

abbrev pub finish : Collected → List RegistrationIssue → Result (List RegistrationIssue) Registry
finish c (i ∷ issues) = throw (i ∷ issues)
finish c [] = ok (registry_of c)

unfoldable pub build_registry : RegisterBatch → Result (List RegistrationIssue) Registry
unfolding collect all_issues registry_of
build_registry batch = finish (collect batch) (all_issues (collect batch))
