-- ===== src/Demo/Rules/Batch/Registered.antt =====
-- The registry of the demo: what createDemoEngine of demo/src/rules.ts registers is accepted.
use test_assestment.Common.{String, true, List, [], ◌∷◌, map, ◌≡◌, refl, Result, ok, throw}
use test_assestment.JsMap.{Map, get, set}
use test_assestment.Entities.{Args, Error, RegisterBatch, Registry, RegisteredRule}
use test_assestment.Demo.GitHub.{Options}
use test_assestment.Issues.{add_unique, add_action_lookup}
use test_assestment.Checks.{check_use, check_attachments, check_rule, parse_for, validate_args}
use test_assestment.Registration.{
  concat_map, collect, invalid_issues, all_issues, registry_of, build_registry, add_to_dispatch,
}
use test_assestment.Demo.Rules.Batch.{
  Surroundings, demo_batch, demo_rules, record_flaky_ci_action, record_issue_closed_quiet_action,
  is_hostile_comment_predicate,
}
use test_assestment.Builders.{calls}
use test_assestment.Builders.Rule
use test_assestment.Builders.Impl

-- The dispatch index, with the names of its rules.
abbrev pub names_by_event : Map (List RegisteredRule) → Map (List String)
names_by_event index = map (λ entry. (entry.0, map (λ r. r.name) entry.1)) index

pub record Serves (reg : Registry) : Type 0 where
  pub rules_by_event :
      names_by_event reg.dispatch
      ≡ ("pull_request.opened", "infra-pr-from-outsider" ∷ [])
        ∷ ("issue_comment.created", "demo-comment-command" ∷ "hostile-pr-comment" ∷ [])
        ∷ ("workflow_run.completed", "flaky-ci-on-pr" ∷ [])
        ∷ ("release.published", "breaking-release" ∷ [])
        ∷ ("issues.closed", "issue-closed-quiet" ∷ [])
        ∷ []

abbrev nothing : RegisterBatch
nothing = record {
  predicates = [];
  actions = [];
  aggregated_actions = [];
  scheduled_actions = [];
  integrations = [];
  rules = [];
}

abbrev made : Result Error RegisterBatch → RegisterBatch
made (ok batch) = batch
made (throw e) = nothing

build_registry_lem :
    (batch : RegisterBatch)
    → all_issues (collect batch) ≡ []
    → build_registry batch ≡ ok (registry_of (collect batch))
unfolding build_registry
build_registry_lem batch h = rw h refl

-- Whatever the surroundings and the options are, if the schema of the actions and the schema of
-- the predicate accept no pinned arguments, the builders of the demo make a batch, the
-- registration accepts it, and the dispatch index lists the six rules of the demo on their five
-- events, the two on comments in the order of the batch.
pub demo_batch-Serves :
    (w : Surroundings) (opts : Options) (p q : Args)
    → parse_for true w.no_args [] ≡ ok p
    → parse_for true w.confidence_args [] ≡ ok q
    → (batch : RegisterBatch) × (demo_batch w opts ≡ ok batch)
      × (reg : Registry) × (build_registry batch ≡ ok reg)
      × Serves reg
unfolding demo_batch demo_rules record_flaky_ci_action record_issue_closed_quiet_action
    is_hostile_comment_predicate calls Rule.call Rule.rule Rule.make_rule_terminal Impl.call
    Impl.unset Impl.action Impl.predicate Impl.scheduled_action Impl.aggregated_action
    Impl.call_aggregated Impl.unset_aggregated build_registry collect all_issues invalid_issues
    registry_of add_to_dispatch concat_map add_unique add_action_lookup check_rule check_use
    check_attachments get set
demo_batch-Serves w opts p q h k =
    let batch = made (demo_batch w opts) in
    (
      batch,
      refl,
      registry_of (collect batch),
      build_registry_lem batch (rw (invalid_issues, concat_map, validate_args, h, k) refl),
      record { rules_by_event = refl },
    )
