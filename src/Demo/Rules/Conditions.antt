-- ===== src/Demo/Rules/Conditions.antt =====
-- What the rules of demo/src/rules.ts ask of an event, and what they count and schedule. A read
-- from a part of the payload that lacks throws.
use test_assestment.Common.{
  ℕ, zero, suc, String, Bool, true, false, not, ◌&&◌, ◌||◌, Option, none, some, get_or, List, [],
  ◌∷◌, ◌++◌, ◌==◌, if◌then◌else◌, leb, nat_eq, codes, codes_eq, decimal, Result, ok, throw,
}
use test_assestment.Duration.{text}
use test_assestment.Entities.{CheckResult, pass, skip, recheck, Error}
use test_assestment.Demo.Uri.{begins_with, includes, to_lower_case, is_between, split_at_slash}
use test_assestment.Demo.GitHub.{
  Options, Request, Response, Classified, IssueState, opened, closed, unknown, is_empty,
  fetch_git_hub_pull_request_files, fetch_git_hub_issue_state,
}
use test_assestment.Demo.Rules.{PullRequest, Issue, Ctx, IssueClosedQuietPayload}

-- `part.…` of a part that may lack
abbrev pub reading {ℓ κ} : {A : Type ℓ} {B : Type κ} → Error → Option A → (A → B) → Result Error B
reading type_error none f = throw type_error
reading type_error (some a) f = ok (f a)

-- `s?.startsWith('infra/')`
unfoldable pub is_infra : Option String → Bool
unfolding begins_with
is_infra none = false
is_infra (some s) = begins_with (codes "infra/") (codes s)

-- `files?.some(…)`
unfoldable pub any_infra : List (Option String) → Bool
unfolding is_infra
any_infra [] = false
any_infra (f ∷ fs) = is_infra f || any_infra fs

-- Names that were fetched.
unfoldable pub any_infra_name : List String → Bool
unfolding is_infra
any_infra_name [] = false
any_infra_name (f ∷ fs) = is_infra (some f) || any_infra_name fs

-- `pr.title?.toLowerCase().includes('infra')`
abbrev pub mentions_infra : Option String → Bool
mentions_infra none = false
mentions_infra (some title) = includes (codes "infra") (to_lower_case (codes title))

-- `repoName(ctx) ?? ctx.event.repository.full_name`
abbrev pub repository_of : Option String → Option String → Option String
repository_of (some name) full_name = some name
repository_of none full_name = full_name

module _ (fetch : Request → Result Error Response) (opts : Options) where
  -- `if (repository && typeof pr.number === 'number')`
  unfoldable pub fetched_files : Option String → Option ℕ → List Request × Option (List String)
  unfolding fetch_git_hub_pull_request_files
  fetched_files none number = ([], none)
  fetched_files (some repository) none = ([], none)
  fetched_files (some repository) (some number) =
      if repository == ""
      then ([], none)
      else fetch_git_hub_pull_request_files fetch (codes repository) number opts

  abbrev pub is_named_infra : PullRequest → Bool
  is_named_infra pr =
      is_empty opts.github_token && (is_infra pr.head_ref || mentions_infra pr.title)

  unfoldable pub pull_request_touches_infra : Ctx → PullRequest → List Request × Bool
  unfolding any_infra any_infra_name fetched_files includes to_lower_case
  pull_request_touches_infra ctx pr =
      let fetched = fetched_files (repository_of ctx.repo_name ctx.event.repository) pr.number in
      if any_infra (get_or pr.files [])
      then ([], true)
      else if any_infra_name (get_or fetched.1 [])
      then (fetched.0, true)
      else (fetched.0, is_named_infra pr)

-- The rule infra-pr-from-outsider has these two conditions and the one above.
unfoldable pub targets_main : Error → Ctx → Result Error Bool
targets_main type_error ctx =
    reading type_error ctx.event.pull_request (λ pr. pr.base_ref == "main")

unfoldable pub is_outsider : (String → Bool) → Error → Ctx → Result Error Bool
is_outsider core_team type_error ctx =
    reading type_error ctx.event.pull_request (λ pr. not (core_team pr.user_login))

unfoldable pub is_demo_command : Error → Ctx → Result Error Bool
unfolding includes
is_demo_command type_error ctx =
    reading type_error ctx.event.comment (λ comment. includes (codes "/air-demo") comment.body)

abbrev pub is_nonempty {ℓ} : {A : Type ℓ} → List A → Bool
is_nonempty [] = false
is_nonempty (x ∷ xs) = true

abbrev pub is_failure : Option String → Bool
is_failure none = false
is_failure (some conclusion) = conclusion == "failure"

unfoldable pub is_flaky_ci : Error → Ctx → Result Error Bool
is_flaky_ci type_error ctx = reading type_error ctx.event.workflow_run (λ run.
    is_failure run.conclusion && (is_nonempty run.pull_requests || run.event == "pull_request"))

-- `String(firstPr?.id ?? head_branch ?? head_sha)`
abbrev pub run_key : List (ℕ × ℕ) → Option (List ℕ) → List ℕ → List ℕ
run_key ((id, number) ∷ prs) head_branch head_sha = decimal id
run_key [] (some branch) head_sha = branch
run_key [] none head_sha = head_sha

unfoldable pub flaky_ci_key : Error → Ctx → Result Error (List ℕ)
flaky_ci_key type_error ctx =
    reading type_error ctx.event.workflow_run
      (λ run. run_key run.pull_requests run.head_branch run.head_sha)

unfoldable pub is_on_pull_request : Error → Ctx → Result Error Bool
is_on_pull_request type_error ctx =
    reading type_error ctx.event.issue (λ issue. issue.is_pull_request)

-- The call of the classifier is an argument, and so is a confidence in hundredths; without an
-- integration of that name there is no result.
unfoldable pub is_hostile_comment :
    (List ℕ → Option (Result Error Classified)) → ℕ → Ctx → Result Error Bool
is_hostile_comment classify min_confidence ctx = elim ctx.event.comment [
  | none ↦ ok false
  | some comment ↦ elim (classify comment.body) [
    | none ↦ ok false
    | some (throw e) ↦ throw e
    | some (ok c) ↦ ok (codes_eq c.label (codes "hostile") && leb min_confidence c.confidence)
  ]
]

-- `^v\d+\.\d+\.\d+$`: digits up to a full stop, twice, and digits up to the end.
unfoldable pub digits_to_end : Bool → List ℕ → Bool
digits_to_end seen [] = seen
digits_to_end seen (c ∷ s) = is_between b'0' b'9' c && digits_to_end true s

unfoldable pub parts_to_end : ℕ → Bool → List ℕ → Bool
unfolding digits_to_end
parts_to_end zero seen s = digits_to_end seen s
parts_to_end (suc stops) seen [] = false
parts_to_end (suc stops) seen (c ∷ s) =
    is_between b'0' b'9' c && parts_to_end (suc stops) true s
    || nat_eq c b'.' && (seen && parts_to_end stops false s)

unfoldable pub is_version : List ℕ → Bool
unfolding parts_to_end
is_version [] = false
is_version (c ∷ s) = nat_eq c b'v' && parts_to_end 2 false s

unfoldable pub is_breaking : Error → Ctx → Result Error Bool
unfolding is_version includes to_lower_case
is_breaking type_error ctx = reading type_error ctx.event.release (λ release.
    is_version release.tag_name
    && includes (codes "breaking change") (to_lower_case (get_or release.body [])))

-- `${repoName(ctx) ?? 'unknown'}#${ctx.event.issue.number}`
unfoldable pub issue_key : Error → Ctx → Result Error (List ℕ)
issue_key type_error ctx =
    reading type_error ctx.event.issue
      (λ issue. codes (get_or ctx.repo_name "unknown") ++ (codes "#" ++ decimal issue.number))

abbrev pub first_part : List (List ℕ) → List ℕ
first_part [] = []
first_part (owner ∷ parts) = owner

abbrev pub second_part : List (List ℕ) → List ℕ
second_part (owner ∷ repo ∷ parts) = repo
second_part parts = []

abbrev pub quiet_payload : String → String → Issue → IssueClosedQuietPayload
quiet_payload delivery_id repository issue = record {
  closed_delivery_id = delivery_id;
  issue_id = issue.id;
  issue_number = issue.number;
  issue_title = issue.title;
  owner = first_part (split_at_slash (codes repository));
  repo = second_part (split_at_slash (codes repository));
  repository = repository;
  url = some issue.html_url;
}

unfoldable pub issue_closed_quiet_transform : Error → Ctx → Result Error IssueClosedQuietPayload
unfolding split_at_slash
issue_closed_quiet_transform type_error ctx =
    elim (repository_of ctx.repo_name ctx.event.repository) [
      | none ↦ throw type_error
      | some repository ↦
          reading type_error ctx.event.issue (quiet_payload ctx.delivery_id repository)
    ]

abbrev pub check_of_state : IssueState → CheckResult
check_of_state closed = pass
check_of_state opened = skip
check_of_state unknown = recheck (text (codes "10s"))

module _ (fetch : Request → Result Error Response) (opts : Options) where
  unfoldable pub issue_closed_quiet_check : IssueClosedQuietPayload → List Request × CheckResult
  unfolding fetch_git_hub_issue_state
  issue_closed_quiet_check payload =
      let fetched =
        fetch_git_hub_issue_state fetch payload.owner payload.repo payload.issue_number
          opts.github_token opts.github_api_url in
      (fetched.0, check_of_state fetched.1)
