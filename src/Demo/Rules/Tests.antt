-- ===== src/Demo/Rules/Tests.antt =====
-- Events of the rules at concrete values, and the theorems at them.
use test_assestment.Common.{
  ◌≡◌, refl, ◌⊎◌, true, false, none, some, [], ◌∷◌, All, codes, Result, ok,
}
use test_assestment.Entities.{
  Error, object, array, field, no_fields, item, no_items, text, pass, recheck,
}
use test_assestment.Duration
use test_assestment.Demo.Uri.{encode_uri_component, split_at_slash, to_lower_case}
use test_assestment.Demo.GitHub.{Options, Request, Response, is_empty}
use test_assestment.Demo.Rules.{PullRequest, Ctx, IssueClosedQuietPayload}
use test_assestment.Demo.Rules.Conditions.{
  pull_request_touches_infra, is_version, issue_closed_quiet_check,
}
use test_assestment.Demo.Rules.Infra.{AsksFor, pull_request_touches_infra-trusts}
use test_assestment.Demo.Rules.Quiet.{Outcome, issue_closed_quiet_check-Outcome}

encoded : encode_uri_component (codes "a b/é") ≡ some (codes "a%20b%2F%C3%A9")
unfolding encode_uri_component
encoded = refl

alone : encode_uri_component (b'a' ∷ 55_296 ∷ []) ≡ none
unfolding encode_uri_component
alone = refl

lower : to_lower_case (codes "INFRA [K]") ≡ codes "infra [k]"
unfolding to_lower_case
lower = refl

split : split_at_slash (codes "octo/repo/x") ≡ codes "octo" ∷ codes "repo" ∷ codes "x" ∷ []
unfolding split_at_slash
split = refl

version : is_version (codes "v1.20.3") ≡ true
unfolding is_version
version = refl

no_version : is_version (codes "v1.2.") ≡ false
unfolding is_version
no_version = refl

abbrev opts : Options
opts = record {
  github_api_url = none;
  github_token = some (codes "token");
  classifier_url = none;
  flaky_ci_window = none;
  issue_closed_quiet_delay = none;
  issue_closed_quiet_deadline = none;
}

abbrev pr : PullRequest
pr = record {
  number = some 7;
  html_url = "https://example.org/7";
  base_ref = "main";
  user_login = "mallory";
  head_ref = some "feature";
  title = some "Change";
  files = none;
}

abbrev ctx : Ctx
ctx = record {
  delivery_id = "d";
  event = record {
    pull_request = some pr;
    comment = none;
    issue = none;
    release = none;
    workflow_run = none;
    repository = some "octo/repo";
  };
  repo_name = none;
}

-- A service that lists one file of the infrastructure, and says that each issue is closed.
abbrev service : Request → Result Error Response
service request = ok (record {
  is_ok = true;
  json = ok (array (item (object (field "filename" (text "infra/main.tf") no_fields)) no_items));
})

abbrev closing : Request → Result Error Response
closing request =
    ok (record { is_ok = true; json = ok (object (field "state" (text "closed") no_fields)) })

touches : (pull_request_touches_infra service opts ctx pr).1 ≡ true
unfolding pull_request_touches_infra
touches = refl

pull_request_touches_infra-trusts_example :
    All (AsksFor service opts (some 7)) (pull_request_touches_infra service opts ctx pr).0
    × ((is_empty opts.github_token ≡ true)
        ⊎ (pull_request_touches_infra service opts ctx
              (record pr { head_ref = some "infra/x"; title = none })
            ≡ pull_request_touches_infra service opts ctx pr))
pull_request_touches_infra-trusts_example =
    pull_request_touches_infra-trusts service opts ctx pr (some "infra/x") none

abbrev payload : IssueClosedQuietPayload
payload = record {
  closed_delivery_id = "d";
  issue_id = 1;
  issue_number = 5;
  issue_title = "Broken";
  owner = codes "octo";
  repo = codes "repo";
  repository = "octo/repo";
  url = none;
}

stays_closed : (issue_closed_quiet_check closing opts payload).1 ≡ pass
unfolding issue_closed_quiet_check
stays_closed = refl

asks_nothing :
    issue_closed_quiet_check closing opts (record payload { owner = 56_320 ∷ [] })
    ≡ ([], recheck (Duration.text (codes "10s")))
unfolding issue_closed_quiet_check
asks_nothing = refl

issue_closed_quiet_check-Outcome_example :
    Outcome closing opts payload (issue_closed_quiet_check closing opts payload)
issue_closed_quiet_check-Outcome_example = issue_closed_quiet_check-Outcome closing opts payload
