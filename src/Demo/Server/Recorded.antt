-- ===== src/Demo/Server/Recorded.antt =====
-- Every response is recorded, and a request that is not signed does not reach the engine.
use test_assestment.Common.{
  ℕ, ◌+◌, String, ◌≡◌, refl, sym, ap, ap₂, ◌∙◌, inl, inr, ◌||◌, Option, none, some, get_or, List,
  [], ◌∷◌, ◌++◌, map, Bool-cases, Result, ok, throw,
}
use mathlib.Core.List.{map-append, append-nil, append_assoc}
use test_assestment.Entities.{Value, Error}
use test_assestment.Demo.Dashboard.{
  DashboardRecorder, DashboardWebhookEvent, EngineEventName, Payload, record_webhook_event,
  record_engine_event, record_log, create_dashboard_recorder,
}
use test_assestment.Demo.Server.{
  Request, Reply, status_code, is_missing, verify_signature, to_engine_event_name,
}
use test_assestment.Demo.Server.Requests.{
  App, record_all, on_response, reject, dispatch, read_payload, handle_webhook, respond, signature,
  raw_body, delivery_id, github_event, conclude,
}

-- The number and the status of a recorded event.
abbrev pub entry : DashboardWebhookEvent → ℕ × ℕ
entry e = (e.id, e.input.status_code)

abbrev pub recorded : DashboardRecorder → List (ℕ × ℕ)
recorded d = map entry d.webhook_events

record_all-webhook :
    (at : String) (events : List (EngineEventName × Payload)) (d : DashboardRecorder)
    → ((record_all at events d).webhook_events ≡ d.webhook_events)
      × ((record_all at events d).next_webhook_event_id ≡ d.next_webhook_event_id)
unfolding record_all record_engine_event
record_all-webhook at [] d = (refl, refl)
record_all-webhook at ((name, payload) ∷ events) d =
    record_all-webhook at events (record_engine_event at name payload d)

-- Numbers from the first on, each with one of the codes.
unfoldable pub numbered : ℕ → List ℕ → List (ℕ × ℕ)
numbered n [] = []
numbered n (c ∷ cs) = (n, c) ∷ numbered (n + 1) cs

-- One event is recorded, with the next number and the status of the reply.
abbrev RecordsOne : {S : Type 0} → App S → Reply × App S → Type 0
RecordsOne app (reply, app') =
    (recorded app'.dashboard
      ≡ recorded app.dashboard ++ (app.dashboard.next_webhook_event_id, status_code reply) ∷ [])
    × (app'.dashboard.next_webhook_event_id ≡ app.dashboard.next_webhook_event_id + 1)

module _ {S : Type 0} (at : String) where
  reject-RecordsOne :
      (code : ℕ) (reason : String) (req : Request) (app : App S)
      → RecordsOne app (reject at code reason req app)
  unfolding reject status_code record_webhook_event
  reject-RecordsOne code reason req app = (map-append entry app.dashboard.webhook_events _, refl)

  conclude-RecordsOne :
      (req : Request) (name : String) (payload : Value) (outcome : Result Error (Unit {0}))
      (app : App S)
      → RecordsOne app (conclude at req name payload outcome app)
  unfolding status_code record_webhook_event
  conclude-RecordsOne req name payload (ok u) app =
      (map-append entry app.dashboard.webhook_events _, refl)
  conclude-RecordsOne req name payload (throw e) app =
      (map-append entry app.dashboard.webhook_events _, refl)

module _ {S : Type 0} (hmac : String → String → String) (parse_json : String → Option Value)
    (evaluate : String
      → Value
      → String
      → S
      → Result Error (Unit {0}) × S × List (EngineEventName × Payload))
    (secret : Option String) (at : String) where
  dispatch-RecordsOne :
      (req : Request) (payload : Value) (name : Option String) (app : App S)
      → RecordsOne app (dispatch hmac parse_json evaluate secret at req payload name app)
  unfolding dispatch
  dispatch-RecordsOne req payload none app =
      unfold status_code record_webhook_event in
      (map-append entry app.dashboard.webhook_events _, refl)
  dispatch-RecordsOne req payload (some name) app =
      let (outcome, engine', events) =
        evaluate name payload (get_or (delivery_id req) "") app.engine in
      let app' : App S = record {
        dashboard = record_all at events app.dashboard;
        engine = engine';
      } in
      let (same, next) = record_all-webhook at events app.dashboard in
      let (told, next') = conclude-RecordsOne at req name payload outcome app' in
      (
        told
            ∙ ap₂
                (λ l n.
                  map entry l
                  ++ (n, status_code (conclude at req name payload outcome app').0) ∷ [])
                same next,
        next' ∙ ap (λ n. n + 1) next,
      )

  read_payload-RecordsOne :
      (req : Request) (payload : Option Value) (app : App S)
      → RecordsOne app (read_payload hmac parse_json evaluate secret at req payload app)
  unfolding read_payload
  read_payload-RecordsOne req none app = reject-RecordsOne at 400 "invalid JSON payload" req app
  read_payload-RecordsOne req (some payload) app =
      dispatch-RecordsOne req payload (to_engine_event_name (get_or (github_event req) "") payload)
        app

  handle_webhook-RecordsOne :
      (req : Request) (app : App S)
      → RecordsOne app (handle_webhook hmac parse_json evaluate secret at req app)
  unfolding handle_webhook
  handle_webhook-RecordsOne req app =
      elim (Bool-cases (is_missing (github_event req) || is_missing (delivery_id req))) [
        | inl b ↦ rw b (reject-RecordsOne at 400 "missing GitHub webhook headers" req app)
        | inr b ↦ elim (Bool-cases (verify_signature hmac (raw_body req) (signature req) secret)) [
          | inl v ↦ rw (b, v) (read_payload-RecordsOne req (parse_json (raw_body req)) app)
          | inr v ↦ rw (b, v) (reject-RecordsOne at 401 "invalid signature" req app)
        ]
      ]

  respond-RecordsOne :
      (req : Request) (app : App S)
      → RecordsOne app (respond hmac parse_json evaluate secret at req app)
  unfolding respond on_response record_log
  respond-RecordsOne req app = handle_webhook-RecordsOne req app

  -- Requests one after another.
  unfoldable pub respond_all : List Request → App S → List Reply × App S
  respond_all [] app = ([], app)
  respond_all (req ∷ reqs) app =
      let (reply, app') = respond hmac parse_json evaluate secret at req app in
      let (replies, app'') = respond_all reqs app' in (reply ∷ replies, app'')

  respond_all-recorded_from :
      (reqs : List Request) (app : App S)
      → let (replies, app') = respond_all reqs app in
        recorded app'.dashboard
        ≡ recorded app.dashboard
          ++ numbered app.dashboard.next_webhook_event_id (map status_code replies)
  unfolding respond_all numbered
  respond_all-recorded_from [] app = sym (append-nil _)
  respond_all-recorded_from (req ∷ reqs) app =
      let (reply, app') = respond hmac parse_json evaluate secret at req app in
      let (told, next) = respond-RecordsOne req app in
      rw (respond_all-recorded_from reqs app', told, next, append_assoc)

  -- However many webhook requests a new app gets, one after another and whatever their outcome,
  -- the dashboard holds one webhook event for each, numbered from 1 in their order, with the
  -- status code that was replied.
  pub respond_all-recorded :
      (reqs : List Request) (engine : S)
      → let (replies, app') =
          respond_all reqs (record { dashboard = create_dashboard_recorder; engine = engine }) in
        recorded app'.dashboard ≡ numbered 1 (map status_code replies)
  unfolding create_dashboard_recorder
  respond_all-recorded reqs engine = respond_all-recorded_from reqs _
