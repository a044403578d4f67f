-- ===== src/Demo/Rules/Batch.antt =====
-- The batch that createDemoEngine of demo/src/rules.ts registers, put together by the builders.
-- The reading of contexts and of stored payloads, the store, the services and the text of a list
-- of code points are arguments.
pub mod Registered
mod Tests
use test_assestment.Common.{
  ℕ, String, Bool, true, false, Option, none, some, get_or, List, [], ◌∷◌, codes, Result, ok, throw,
  ◌>>=◌,
}
use test_assestment.Duration.{Duration, text}
use test_assestment.Entities.{
  Value, Args, Schema, Error, BaseCtx, AggregatedCtx, ScheduledCtx, CheckCtx, WhenNode, inline,
  use_of, all_of, no_nodes, node, RegisteredRule, RegisteredAction, RegisteredAggregatedAction,
  RegisteredScheduledAction, RegisteredPredicate, RegisterBatch, number, plain, AggregateStrategy,
  ScheduleStrategy,
}
use test_assestment.Demo.Store.{NotificationInput}
use test_assestment.Demo.GitHub.{Options, Request, Response, Classified}
use test_assestment.Demo.Rules.{
  Ctx, IssueClosedQuietPayload, record_infra_pr, record_demo_comment, record_hostile_comment,
  record_breaking_release, record_flaky_ci, record_issue_closed_quiet,
}
use test_assestment.Demo.Rules.Conditions.{
  reading, targets_main, is_outsider, pull_request_touches_infra, is_demo_command, is_flaky_ci,
  flaky_ci_key, is_on_pull_request, is_hostile_comment, is_breaking, issue_key,
  issue_closed_quiet_transform, issue_closed_quiet_check,
}
use test_assestment.Builders.{calls}
use test_assestment.Builders.Rule.{RuleCall, rule, make_rule_terminal}
use test_assestment.Builders.Rule
use test_assestment.Builders.Impl.{
  ImplState, unset, unset_aggregated, call_aggregated, action, aggregated_action, scheduled_action,
  predicate,
}
use test_assestment.Builders.Impl

pub record Surroundings : Type 0 where
  pub view : BaseCtx → Ctx
  -- `store.add`
  pub add : NotificationInput → Result Error (Unit {0})
  pub core_team : String → Bool
  pub fetch : Request → Result Error Response
  -- The call of the integration in a context.
  pub classify : List ℕ → Option (Result Error Classified)
  pub type_error : Error
  pub text_of : List ℕ → String
  pub flaky_payload : Ctx → Result Error Value
  pub to_payload : IssueClosedQuietPayload → Value
  pub of_payload : Value → IssueClosedQuietPayload
  pub no_args : Schema
  pub confidence_args : Schema
  pub min_confidence : Args → ℕ

module _ (w : Surroundings) (opts : Options) where
  -- `await store.add(…)`, or an early return
  abbrev pub add_if : Option NotificationInput → Result Error (Unit {0})
  add_if none = ok tt
  add_if (some n) = w.add n

  abbrev pub add_result : Result Error NotificationInput → Result Error (Unit {0})
  add_result (throw e) = throw e
  add_result (ok n) = w.add n

  abbrev pub recorder :
      (Ctx → Option NotificationInput) → ImplState (BaseCtx → Result Error (Unit {0}))
  recorder record_it =
      calls Impl.call (Impl.args w.no_args ∷ Impl.fn (λ ctx. add_if (record_it (w.view ctx))) ∷ [])
        unset

  abbrev pub made_action : String → (Ctx → Option NotificationInput) → Result Error RegisteredAction
  made_action name record_it = action name (recorder record_it) (recorder record_it) (some [])

  unfoldable pub record_flaky_ci_action : Result Error RegisteredAggregatedAction
  unfolding aggregated_action calls call_aggregated unset_aggregated record_flaky_ci
  record_flaky_ci_action =
      let state =
        calls call_aggregated
          (Impl.on "workflow_run.completed"
            ∷ Impl.with_args w.no_args
            ∷ Impl.transform (λ ctx. w.flaky_payload (w.view ctx))
            ∷ Impl.with_fn (λ ctx.
              add_result (record_flaky_ci w.type_error ctx.aggregate.count (w.view ctx.base)))
            ∷ [])
          unset_aggregated in
      aggregated_action "record_flaky_ci" state state (some [])

  unfoldable pub record_issue_closed_quiet_action : Result Error RegisteredScheduledAction
  unfolding scheduled_action calls Impl.call unset record_issue_closed_quiet
  record_issue_closed_quiet_action =
      let state =
        calls Impl.call
          (Impl.args w.no_args
            ∷ Impl.fn
                (λ ctx. w.add (record_issue_closed_quiet opts (w.of_payload ctx.scheduled.payload)))
            ∷ [])
          unset in
      scheduled_action "record_issue_closed_quiet" state state (some [])

  unfoldable pub is_hostile_comment_predicate : Result Error RegisteredPredicate
  unfolding predicate calls Impl.call unset is_hostile_comment
  is_hostile_comment_predicate =
      let state =
        calls Impl.call
          (Impl.args w.confidence_args
            ∷ Impl.fn
                (λ ctx. is_hostile_comment w.classify (w.min_confidence ctx.args) (w.view ctx))
            ∷ [])
          unset in
      predicate "is_hostile_comment" state state none

  abbrev pub leaf : (Error → Ctx → Result Error Bool) → WhenNode
  leaf f = inline (λ ctx. f w.type_error (w.view ctx))

  abbrev pub touches_infra : Error → Ctx → Result Error Bool
  touches_infra type_error ctx =
      reading type_error ctx.event.pull_request
        (λ pr. (pull_request_touches_infra w.fetch opts ctx pr).1)

  abbrev pub text_result : Result Error (List ℕ) → Result Error String
  text_result (throw e) = throw e
  text_result (ok t) = ok (w.text_of t)

  abbrev pub payload_result : Result Error IssueClosedQuietPayload → Result Error Value
  payload_result (throw e) = throw e
  payload_result (ok p) = ok (w.to_payload p)

  abbrev pub flaky_strategy : AggregateStrategy
  flaky_strategy = record {
    window = get_or opts.flaky_ci_window (text (codes "1h"));
    count = 3;
    key = λ ctx. text_result (flaky_ci_key w.type_error (w.view ctx));
    at = none;
  }

  abbrev pub quiet_strategy : ScheduleStrategy
  quiet_strategy = record {
    delay = get_or opts.issue_closed_quiet_delay (text (codes "5m"));
    deadline = some (get_or opts.issue_closed_quiet_deadline (text (codes "10m")));
    key = λ ctx. text_result (issue_key w.type_error (w.view ctx));
    transform = λ ctx. payload_result (issue_closed_quiet_transform w.type_error (w.view ctx));
    check = λ ctx. ok (issue_closed_quiet_check w.fetch opts (w.of_payload ctx.payload)).1;
  }

  abbrev pub rule_of : String → List RuleCall → Result Error RegisteredRule
  rule_of name cs = make_rule_terminal (calls Rule.call cs (rule name)) (some [])

  unfoldable pub demo_rules : Result Error (List RegisteredRule)
  unfolding make_rule_terminal calls Rule.call rule
  demo_rules = do
    infra ← rule_of "infra-pr-from-outsider" (
        Rule.on "pull_request.opened"
        ∷ Rule.when_node (
            all_of (
              node (leaf targets_main)
                (node (leaf (is_outsider w.core_team)) (node (leaf touches_infra) no_nodes))))
        ∷ Rule.action "record_infra_pr" []
        ∷ [])
    command ← rule_of "demo-comment-command" (
        Rule.on "issue_comment.created"
        ∷ Rule.when_node (leaf is_demo_command)
        ∷ Rule.action "record_demo_comment" []
        ∷ [])
    flaky ← rule_of "flaky-ci-on-pr" (
        Rule.on "workflow_run.completed"
        ∷ Rule.when_node (leaf is_flaky_ci)
        ∷ Rule.aggregate_by flaky_strategy
        ∷ Rule.action "record_flaky_ci" []
        ∷ [])
    hostile ← rule_of "hostile-pr-comment" (
        Rule.on "issue_comment.created"
        ∷ Rule.when_node (
            all_of (
              node (leaf is_on_pull_request) (
                node
                  (use_of (record {
                    name = "is_hostile_comment";
                    args = ("minConfidence", plain (number 80)) ∷ [];
                  }))
                  no_nodes)))
        ∷ Rule.action "record_hostile_comment" []
        ∷ [])
    breaking ← rule_of "breaking-release" (
        Rule.on "release.published"
        ∷ Rule.when_node (leaf is_breaking)
        ∷ Rule.action "record_breaking_release" []
        ∷ [])
    quiet ← rule_of "issue-closed-quiet" (
        Rule.on "issues.closed"
        ∷ Rule.when_node (inline (λ ctx. ok true))
        ∷ Rule.schedule_by quiet_strategy
        ∷ Rule.action "record_issue_closed_quiet" []
        ∷ [])
    ok (infra ∷ command ∷ flaky ∷ hostile ∷ breaking ∷ quiet ∷ [])

  unfoldable pub demo_batch : Result Error RegisterBatch
  unfolding action calls Impl.call unset demo_rules record_flaky_ci_action
      record_issue_closed_quiet_action is_hostile_comment_predicate
  demo_batch = do
    hostile ← is_hostile_comment_predicate
    infra ← made_action "record_infra_pr" record_infra_pr
    comment ← made_action "record_demo_comment" record_demo_comment
    hostile_comment ← made_action "record_hostile_comment" record_hostile_comment
    release ← made_action "record_breaking_release" record_breaking_release
    flaky ← record_flaky_ci_action
    quiet ← record_issue_closed_quiet_action
    rules ← demo_rules
    ok (record {
      predicates = hostile ∷ [];
      actions = infra ∷ comment ∷ hostile_comment ∷ release ∷ [];
      aggregated_actions = flaky ∷ [];
      scheduled_actions = quiet ∷ [];
      integrations = record { name = "classifier" } ∷ [];
      rules = rules;
    })
