-- ===== src/Demo/Server/Requests.antt =====
-- The handler of `POST /github/webhook`, with the hook that follows every response.
use test_assestment.Common.{
  ℕ, String, not, ◌||◌, Option, none, some, get_or, List, [], ◌∷◌, ◌++◌, leb, if◌then◌else◌, codes,
  decimal, Result, ok, throw,
}
use test_assestment.Entities.{Value, no_fields, field, undefined, object, text, number, Error}
use test_assestment.Demo.Dashboard.{
  DashboardRecorder, WebhookInput, Level, Outcome, EngineEventName, Payload, record_webhook_event,
  record_engine_event, record_log, ErrorValue,
}
use test_assestment.Demo.Server.{
  Request, Reply, error_reply, ignored_reply, accepted_reply, status_code, first_header, is_missing,
  verify_signature, to_engine_event_name,
}

pub record App (S : Type 0) : Type 0 where
  pub dashboard : DashboardRecorder
  pub engine : S

-- subscribeDashboardToEngine: every event that the engine emits is recorded, in order.
unfoldable pub record_all :
    String → List (EngineEventName × Payload) → DashboardRecorder → DashboardRecorder
record_all at [] d = d
record_all at ((name, payload) ∷ events) d =
    record_all at events (record_engine_event at name payload d)

-- The level of a response in the log.
abbrev pub level_of : ℕ → Level
level_of code =
    if leb 500 code then Level.error else if leb 400 code then Level.warn else Level.info

unfoldable pub on_response : String → Request → Reply → DashboardRecorder → DashboardRecorder
unfolding record_log status_code
on_response at req reply d =
    record_log at
      (record {
        level = level_of (status_code reply);
        message =
            codes req.method
            ++ (codes " " ++ (codes req.url ++ (codes " " ++ decimal (status_code reply))));
        details = object (
            field "method" (text req.method) (
              field "url" (text req.url)
                (field "statusCode" (number (status_code reply)) no_fields)));
      })
      d

-- What follows an error that a route throws.
unfoldable pub on_error : String → Request → ErrorValue → DashboardRecorder → DashboardRecorder
unfolding record_log
on_error at req err d =
    record_log at
      (record {
        level = Level.error;
        message = codes req.method ++ (codes " " ++ (codes req.url ++ codes " failed"));
        details = object (
            field "name" (text err.name)
              (field "message" (text err.message) (field "stack" (text err.stack) no_fields)));
      })
      d

-- What a request gives before its payload is read.
abbrev pub raw_body : Request → String
raw_body req = get_or req.body ""

abbrev pub github_event : Request → Option String
github_event req = first_header req.github_event

abbrev pub delivery_id : Request → Option String
delivery_id req = first_header req.github_delivery

abbrev pub signature : Request → Option String
signature req = first_header req.hub_signature_256

-- What the dashboard is told of a request.
abbrev pub event_of : Request → Option String → Outcome → ℕ → Option String → Value → WebhookInput
event_of req engine_event outcome code reason payload = record {
  delivery_id = delivery_id req;
  github_event = github_event req;
  engine_event = engine_event;
  outcome = outcome;
  status_code = code;
  reason = reason;
  payload = payload;
}

module _ {S : Type 0} (at : String) where
  abbrev pub tell : WebhookInput → App S → App S
  tell input app = record app { dashboard = record_webhook_event at input app.dashboard }

  unfoldable pub reject : ℕ → String → Request → App S → Reply × App S
  unfolding record_webhook_event first_header
  reject code reason req app = (
    error_reply code reason none,
    tell (event_of req none Outcome.rejected code (some reason) undefined) app,
  )

  -- The answer once the evaluation has ended.
  abbrev pub conclude : Request → String → Value → Result Error (Unit {0}) → App S → Reply × App S
  conclude req name payload (throw e) app = (
    error_reply 500 "evaluation failed" (delivery_id req),
    tell (event_of req (some name) Outcome.failed 500 (some "evaluation failed") payload) app,
  )
  conclude req name payload (ok u) app = (
    accepted_reply 202 (get_or (delivery_id req) "") name,
    tell (event_of req (some name) Outcome.accepted 202 none payload) app,
  )

module _ {S : Type 0} (hmac : String → String → String) (parse_json : String → Option Value)
    (evaluate : String
      → Value
      → String
      → S
      → Result Error (Unit {0}) × S × List (EngineEventName × Payload))
    (secret : Option String) (at : String) where
  unfoldable pub dispatch : Request → Value → Option String → App S → Reply × App S
  unfolding record_webhook_event record_all first_header
  dispatch req payload none app = (
    ignored_reply 202 "unsupported event" (get_or (delivery_id req) "")
        (get_or (github_event req) ""),
    tell at (event_of req none Outcome.ignored 202 (some "unsupported event") payload) app,
  )
  dispatch req payload (some name) app =
      let (outcome, engine', events) =
        evaluate name payload (get_or (delivery_id req) "") app.engine in
      conclude at req name payload outcome
        (record { dashboard = record_all at events app.dashboard; engine = engine' })

  unfoldable pub read_payload : Request → Option Value → App S → Reply × App S
  unfolding reject dispatch to_engine_event_name
  read_payload req none app = reject at 400 "invalid JSON payload" req app
  read_payload req (some payload) app =
      dispatch req payload (to_engine_event_name (get_or (github_event req) "") payload) app

  unfoldable pub handle_webhook : Request → App S → Reply × App S
  unfolding verify_signature first_header reject read_payload
  handle_webhook req app =
      if is_missing (github_event req) || is_missing (delivery_id req)
      then reject at 400 "missing GitHub webhook headers" req app
      else if not (verify_signature hmac (raw_body req) (signature req) secret)
      then reject at 401 "invalid signature" req app
      else read_payload req (parse_json (raw_body req)) app

  -- A request with its response.
  unfoldable pub respond : Request → App S → Reply × App S
  unfolding handle_webhook on_response
  respond req app =
      let (reply, app') = handle_webhook req app in
      (reply, record app' { dashboard = on_response at req reply app'.dashboard })
