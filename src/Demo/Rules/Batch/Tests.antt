-- ===== src/Demo/Rules/Batch/Tests.antt =====
-- The demo with no options and services that answer nothing.
use test_assestment.Common.{false, none, some, [], ◌≡◌, refl, ok, throw}
use test_assestment.Entities.{Schema, error, null, RegisterBatch, Registry}
use test_assestment.Demo.GitHub.{Options}
use test_assestment.Demo.Rules.{Ctx, IssueClosedQuietPayload}
use test_assestment.Registration.{build_registry}
use test_assestment.Demo.Rules.Batch.{Surroundings, demo_batch}
use test_assestment.Demo.Rules.Batch.Registered.{Serves, demo_batch-Serves}

abbrev defaults : Options
defaults = record {
  github_api_url = none;
  github_token = none;
  classifier_url = none;
  flaky_ci_window = none;
  issue_closed_quiet_delay = none;
  issue_closed_quiet_deadline = none;
}

abbrev any : Schema
any = record { safe_parse = λ given. ok given; partial = none }

-- A schema with a required field, which its partial form does not require.
abbrev required : Schema
required = record { safe_parse = λ given. throw []; partial = some (λ given. ok given) }

abbrev blank : Ctx
blank = record {
  delivery_id = "d";
  event = record {
    pull_request = none;
    comment = none;
    issue = none;
    release = none;
    workflow_run = none;
    repository = none;
  };
  repo_name = none;
}

abbrev no_payload : IssueClosedQuietPayload
no_payload = record {
  closed_delivery_id = "d";
  issue_id = 1;
  issue_number = 5;
  issue_title = "Broken";
  owner = [];
  repo = [];
  repository = "";
  url = none;
}

abbrev surroundings : Surroundings
surroundings = record {
  view = λ ctx. blank;
  add = λ n. ok tt;
  core_team = λ login. false;
  fetch = λ request. throw (error "unreachable");
  classify = λ body. none;
  type_error = error "undefined";
  text_of = λ cs. "";
  flaky_payload = λ ctx. ok null;
  to_payload = λ p. null;
  of_payload = λ v. no_payload;
  no_args = any;
  confidence_args = required;
  min_confidence = λ given. 80;
}

demo_batch-Serves_example :
    (batch : RegisterBatch) × (demo_batch surroundings defaults ≡ ok batch)
    × (reg : Registry) × (build_registry batch ≡ ok reg)
    × Serves reg
demo_batch-Serves_example = demo_batch-Serves surroundings defaults [] [] refl refl
