-- ===== src/Demo/Server/Tests.antt =====
-- Runs of the handler, and the theorems at them. The hash is the secret before the body, and a body
-- is JSON if it is the text "open".
use test_assestment.Common.{
  ℕ, ◌+◌, String, ◌≡◌, refl, ◌⊎◌, Option, none, some, List, [], ◌∷◌, ◌==◌, if◌then◌else◌, Result,
  ok, throw, str_append, map, codes_eq, decimal, digits_from, arith, eq_iff,
}
use test_assestment.Entities.{Value, Error, text, object, field, no_fields}
use test_assestment.Demo.Dashboard.{
  EngineEventName, Payload, whole, value, create_dashboard_recorder, record_log,
  record_webhook_event, record_engine_event,
}
use test_assestment.Demo.Server.{
  Request, single, error_reply, ignored_reply, accepted_reply, status_code, first_header,
  verify_signature, to_engine_event_name, is_supported_event_name, supported_event_names,
}
use test_assestment.Demo.Server.Requests.{App, respond, handle_webhook, on_response, signature}
use test_assestment.Demo.Server.Recorded
use test_assestment.Demo.Server.Recorded.{recorded, numbered, respond_all}
use test_assestment.Demo.Server.Signatures

abbrev hmac : String → String → String
hmac secret body = str_append secret body

abbrev parse_json : String → Option Value
parse_json body =
    if body == "open" then some (object (field "action" (text "opened") no_fields)) else none

-- The engine counts its evaluations, emits one event in each, and fails at the delivery "bad".
abbrev evaluate :
    String → Value → String → ℕ → Result Error (Unit {0}) × ℕ × List (EngineEventName × Payload)
evaluate name payload delivery_id n = (
  if delivery_id == "bad" then throw (Error.error "no") else ok tt,
  n + 1,
  (EngineEventName.evaluation_completed, whole (value (text name))) ∷ [],
)

abbrev request : String → String → String → String → Request
request event delivery signature body = record {
  method = "POST";
  url = "/github/webhook";
  body = some body;
  github_event = single event;
  github_delivery = single delivery;
  hub_signature_256 = single signature;
}

abbrev requests : List Request
requests =
    request "pull_request" "d1" "sha256=keyopen" "open"
    ∷ request "pull_request" "d2" "sha256=wrong" "open"
    ∷ request "pull_request" "d3" "sha256=keyshut" "shut"
    ∷ request "star" "d4" "sha256=keyopen" "open"
    ∷ request "" "d5" "sha256=keyopen" "open"
    ∷ request "issues" "bad" "sha256=keyopen" "open"
    ∷ []

abbrev fresh : App ℕ
fresh = record { dashboard = create_dashboard_recorder; engine = 0 }

handled : Unit {0}
unfolding respond_all respond handle_webhook on_response first_header verify_signature
    to_engine_event_name is_supported_event_name supported_event_names status_code record_log
    record_webhook_event record_engine_event create_dashboard_recorder codes_eq decimal digits_from
handled = tt

replies :
    (respond_all hmac parse_json evaluate (some "key") "t" requests fresh).0
    ≡ accepted_reply 202 "d1" "pull_request.opened"
      ∷ error_reply 401 "invalid signature" none
      ∷ error_reply 400 "invalid JSON payload" none
      ∷ ignored_reply 202 "unsupported event" "d4" "star"
      ∷ error_reply 400 "missing GitHub webhook headers" none
      ∷ error_reply 500 "evaluation failed" (some "bad")
      ∷ []
unfolding handled
replies = refl

evaluations : (respond_all hmac parse_json evaluate (some "key") "t" requests fresh).1.engine ≡ 2
unfolding handled
evaluations = refl

respond_all-recorded_example :
    let (replies, app') = respond_all hmac parse_json evaluate (some "key") "t" requests fresh in
    recorded app'.dashboard ≡ numbered 1 (map status_code replies)
respond_all-recorded_example =
    Recorded.respond_all-recorded hmac parse_json evaluate (some "key") "t" requests 0

abbrev forged : Request
forged = request "pull_request" "d2" "sha256=wrong" "open"

respond-unsigned_example :
    let (reply, app') = respond hmac parse_json evaluate (some "key") "t" forged fresh in
    (app'.engine ≡ fresh.engine)
    × (app'.dashboard.engine_events ≡ fresh.dashboard.engine_events)
    × ((status_code reply ≡ 400) ⊎ (status_code reply ≡ 401))
unfolding first_header
respond-unsigned_example =
    Signatures.respond-unsigned hmac parse_json evaluate "key" "t" forged fresh
      (ground (arith, eq_iff "key" "")) (ground (arith, eq_iff "sha256=wrong" "sha256=keyopen"))
