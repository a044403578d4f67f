-- ===== src/Demo/Server.antt =====
-- The webhook handler of demo/src/server.ts with its hooks. The JSON parser, the keyed hash of the
-- crypto library and the evaluation of the engine are arguments.
pub mod Requests
pub mod Recorded
pub mod Signatures
mod Tests
use test_assestment.Common.{
  ℕ, ◌+◌, String, Bool, true, false, not, ◌&&◌, ◌||◌, Option, none, some, List, [], ◌∷◌, ◌++◌, ◌==◌,
  leb, nat_eq, if◌then◌else◌, length, codes, codes_eq, decimal, Result, ok, throw, str_append,
}
use package.text.Mathlib.Text.{starts_with}
use test_assestment.Entities.{
  Value, Fields, no_fields, field, undefined, null, object, array, text, number,
}
use test_assestment.Demo.Dashboard.{
  DashboardRecorder, WebhookInput, LogInput, Level, Outcome, EngineEventName, Payload,
  record_webhook_event, record_engine_event, record_log,
}

-- `string | string[] | undefined`
pub data Header : Type 0 where
  absent : Header
  single : String → Header
  several : List String → Header

unfoldable pub first_header : Header → Option String
first_header absent = none
first_header (single s) = some s
first_header (several []) = none
first_header (several (s ∷ _)) = some s

pub record Request : Type 0 where
  pub method : String
  pub url : String
  -- The body, if it is a text.
  pub body : Option String
  pub github_event : Header
  pub github_delivery : Header
  pub hub_signature_256 : Header

pub data Reply : Type 0 where
  error_reply : ℕ → String → Option String → Reply
  ignored_reply : ℕ → String → String → String → Reply
  accepted_reply : ℕ → String → String → Reply

unfoldable pub status_code : Reply → ℕ
status_code (error_reply code _ _) = code
status_code (ignored_reply code _ _ _) = code
status_code (accepted_reply code _ _) = code

unfoldable pub supported_event_names : List String
supported_event_names =
    "pull_request.opened" ∷ "pull_request.closed" ∷ "pull_request.synchronize"
    ∷ "pull_request.reopened" ∷ "pull_request.ready_for_review" ∷ "pull_request_review.submitted"
    ∷ "issues.opened" ∷ "issues.closed" ∷ "issues.reopened" ∷ "issues.edited"
    ∷ "issue_comment.created" ∷ "issue_comment.edited" ∷ "workflow_run.completed"
    ∷ "workflow_run.requested" ∷ "check_run.completed" ∷ "push" ∷ "release.published"
    ∷ "release.edited" ∷ []

unfoldable pub is_listed : String → List String → Bool
is_listed name [] = false
is_listed name (n ∷ ns) = n == name || is_listed name ns

unfoldable pub is_supported_event_name : String → Bool
unfolding is_listed
is_supported_event_name name = is_listed name supported_event_names

unfoldable pub get_field : String → Fields → Value
get_field key no_fields = undefined
get_field key (field k v fields) = if k == key then v else get_field key fields

abbrev pub as_text : Value → Option String
as_text (text s) = some s
as_text v = none

-- No other value than an object has a field `action`.
unfoldable pub payload_action : Value → Option String
unfolding get_field
payload_action (object fields) = as_text (get_field "action" fields)
payload_action v = none

-- An empty action counts as none.
unfoldable pub action_name : String → Option String → String
action_name github_event none = github_event
action_name github_event (some action) =
    if action == "" then github_event else str_append github_event (str_append "." action)

unfoldable pub to_engine_event_name : String → Value → Option String
unfolding payload_action action_name
to_engine_event_name github_event payload =
    let name = action_name github_event (payload_action payload) in
    if is_supported_event_name name
    then some name
    else if is_supported_event_name github_event
    then some github_event
    else none

-- The bytes are of one length and the same.
abbrev pub same_bytes : String → String → Bool
same_bytes a b = nat_eq (length (codes a)) (length (codes b)) && codes_eq (codes a) (codes b)

-- `!value` for a text that may be missing
abbrev pub is_missing : Option String → Bool
is_missing none = true
is_missing (some s) = s == ""

-- `sha256=${createHmac('sha256', secret).update(rawBody).digest('hex')}`
abbrev pub expected_signature : (String → String → String) → String → String → String
expected_signature hmac secret raw_body = str_append "sha256=" (hmac secret raw_body)

abbrev pub signed_by : (String → String → String) → String → Option String → String → Bool
signed_by hmac raw_body none secret = false
signed_by hmac raw_body (some signature) secret =
    starts_with signature "sha256="
    && same_bytes signature (expected_signature hmac secret raw_body)

unfoldable pub verify_signature :
    (String → String → String) → String → Option String → Option String → Bool
unfolding codes_eq
verify_signature hmac raw_body signature none = true
verify_signature hmac raw_body signature (some secret) =
    if secret == "" then true else signed_by hmac raw_body signature secret
