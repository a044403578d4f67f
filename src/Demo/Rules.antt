-- ===== src/Demo/Rules.antt =====
-- The actions, predicates and rules of createDemoEngine in demo/src/rules.ts. An event is the part
-- of its payload that they read; a read from a part that lacks throws an error, which is an
-- argument. Texts are lists of code points, except those that are only passed on.
pub mod Batch
pub mod Conditions
pub mod Infra
pub mod Versions
pub mod Quiet
mod Tests
use test_assestment.Common.{
  ℕ, String, Bool, true, false, not, ◌&&◌, ◌||◌, Option, none, some, get_or, List, [], ◌∷◌, ◌++◌,
  ◌==◌, if◌then◌else◌, map, leb, nat_eq, codes, decimal, Result, ok, throw, str_append,
}
use test_assestment.Duration.{Duration, num, text}
use test_assestment.Entities.{CheckResult, pass, skip, recheck, Error}
use test_assestment.Demo.Store.{NotificationInput}
use test_assestment.Demo.Uri.{begins_with, includes, to_lower_case, is_between, split_at_slash}
use test_assestment.Demo.GitHub.{
  Options, Request, Response, Classified, IssueState, opened, closed, unknown, is_empty,
  fetch_git_hub_pull_request_files, fetch_git_hub_issue_state,
}

pub record PullRequest : Type 0 where
  pub number : Option ℕ
  pub html_url : String
  pub base_ref : String
  pub user_login : String
  pub head_ref : Option String
  pub title : Option String
  pub files : Option (List (Option String))

pub record Comment : Type 0 where
  pub body : List ℕ
  pub html_url : String

pub record Issue : Type 0 where
  pub id : ℕ
  pub number : ℕ
  pub title : String
  pub html_url : String
  -- `Boolean(issue.pull_request)`
  pub is_pull_request : Bool

pub record Release : Type 0 where
  pub tag_name : List ℕ
  pub body : Option (List ℕ)
  pub html_url : String

pub record WorkflowRun : Type 0 where
  pub id : ℕ
  pub event : String
  pub conclusion : Option String
  pub head_branch : Option (List ℕ)
  pub head_sha : List ℕ
  pub html_url : String
  -- The ids and numbers.
  pub pull_requests : List (ℕ × ℕ)

pub record Payload : Type 0 where
  pub pull_request : Option PullRequest
  pub comment : Option Comment
  pub issue : Option Issue
  pub release : Option Release
  pub workflow_run : Option WorkflowRun
  -- `repository.full_name`
  pub repository : Option String

pub record Ctx : Type 0 where
  pub delivery_id : String
  pub event : Payload
  -- `ctx.repo?.fullName`
  pub repo_name : Option String

abbrev pub number_text : Option ℕ → List ℕ
number_text none = codes "undefined"
number_text (some n) = decimal n

-- An action gives what it adds to the store, or nothing where it returns early.
unfoldable pub record_infra_pr : Ctx → Option NotificationInput
record_infra_pr ctx = elim ctx.event.pull_request [
  | none ↦ none
  | some pr ↦ some (record {
    delivery_id = ctx.delivery_id;
    event_name = "pull_request.opened";
    rule_id = "infra-pr-from-outsider";
    repository = ctx.repo_name;
    message =
        codes "PR #"
        ++ (number_text pr.number ++ codes " targets main and looks infrastructure-related");
    url = some pr.html_url;
    aggregate_count = none;
  })
]

-- `'comment' in ctx.event` and `'issue' in ctx.event`
abbrev pub on_comment :
    Option Comment → Option Issue → (Comment → Issue → NotificationInput) → Option NotificationInput
on_comment none issue f = none
on_comment (some comment) none f = none
on_comment (some comment) (some issue) f = some (f comment issue)

unfoldable pub record_demo_comment : Ctx → Option NotificationInput
record_demo_comment ctx = on_comment ctx.event.comment ctx.event.issue (λ comment issue. record {
  delivery_id = ctx.delivery_id;
  event_name = "issue_comment.created";
  rule_id = "demo-comment-command";
  repository = ctx.repo_name;
  message = codes "Demo command received on issue #" ++ decimal issue.number;
  url = some comment.html_url;
  aggregate_count = none;
})

unfoldable pub record_hostile_comment : Ctx → Option NotificationInput
record_hostile_comment ctx = on_comment ctx.event.comment ctx.event.issue (λ comment issue. record {
  delivery_id = ctx.delivery_id;
  event_name = "issue_comment.created";
  rule_id = "hostile-pr-comment";
  repository = ctx.repo_name;
  message = codes "Hostile PR comment detected on #" ++ decimal issue.number;
  url = some comment.html_url;
  aggregate_count = none;
})

unfoldable pub record_breaking_release : Ctx → Option NotificationInput
record_breaking_release ctx = elim ctx.event.release [
  | none ↦ none
  | some release ↦ some (record {
    delivery_id = ctx.delivery_id;
    event_name = "release.published";
    rule_id = "breaking-release";
    repository = ctx.repo_name;
    message = codes "Release " ++ (release.tag_name ++ codes " mentions a breaking change");
    url = some release.html_url;
    aggregate_count = none;
  })
]

abbrev pub branch_text : Option (List ℕ) → List ℕ
branch_text none = codes "null"
branch_text (some branch) = branch

-- `firstPr ? … : …`
abbrev pub run_text : List (ℕ × ℕ) → Option (List ℕ) → List ℕ
run_text [] head_branch = codes "Branch " ++ branch_text head_branch
run_text ((id, number) ∷ prs) head_branch = codes "PR #" ++ decimal number

unfoldable pub record_flaky_ci : Error → ℕ → Ctx → Result Error NotificationInput
record_flaky_ci type_error count ctx = elim ctx.event.workflow_run [
  | none ↦ throw type_error
  | some run ↦ ok (record {
    delivery_id = ctx.delivery_id;
    event_name = "workflow_run.completed";
    rule_id = "flaky-ci-on-pr";
    repository = ctx.repo_name;
    message =
        run_text run.pull_requests run.head_branch
        ++ (codes " had " ++ (decimal count ++ codes " failing CI runs within 1h"));
    url = some run.html_url;
    aggregate_count = some count;
  })
]

pub record IssueClosedQuietPayload : Type 0 where
  pub closed_delivery_id : String
  pub issue_id : ℕ
  pub issue_number : ℕ
  pub issue_title : String
  pub owner : List ℕ
  pub repo : List ℕ
  pub repository : String
  pub url : Option String

abbrev pub duration_text : Duration → List ℕ
duration_text (num n) = decimal n
duration_text (text t) = t

unfoldable pub record_issue_closed_quiet : Options → IssueClosedQuietPayload → NotificationInput
record_issue_closed_quiet opts payload = record {
  delivery_id = payload.closed_delivery_id;
  event_name = "issues.closed";
  rule_id = "issue-closed-quiet";
  repository = some payload.repository;
  message =
      codes "Issue #"
      ++ (decimal payload.issue_number
          ++ (codes " stayed closed for "
              ++ duration_text (get_or opts.issue_closed_quiet_delay (text (codes "5m")))));
  url = payload.url;
  aggregate_count = none;
}
