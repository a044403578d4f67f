-- ===== src/Demo/Server/Signatures.antt =====
-- With a secret, a request whose signature is not the keyed hash of its body stays outside.
use package.text.Mathlib.TextEquality.{Char-path}
use test_assestment.Common.{
  String, ◌≡◌, ◌≢◌, refl, ap, ap₂, ◌⊎◌, inl, inr, true, ◌||◌, Option, none, some, List, arith,
  Bool-cases, Result, codes, codes_eq, eq_iff,
}
use test_assestment.Entities.{Value, Error}
use test_assestment.Demo.Dashboard.{EngineEventName, Payload, record_webhook_event, record_log}
use test_assestment.Demo.Server.{
  Request, Reply, status_code, is_missing, verify_signature, expected_signature,
}
use test_assestment.Demo.Server.Requests.{
  App, on_response, reject, handle_webhook, respond, signature, raw_body, delivery_id, github_event,
}

codes_eq-eq : (s t : String) → codes_eq (codes s) (codes t) ≡ true → s ≡ t
unfolding codes_eq
codes_eq-eq String.[] String.[] h = refl
codes_eq-eq String.[] (String.◌∷◌ d t) h = cc
codes_eq-eq (String.◌∷◌ c s) String.[] h = cc
codes_eq-eq (String.◌∷◌ c s) (String.◌∷◌ d t) h =
    ap₂ String.◌∷◌ (Char-path c d (ground arith)) (codes_eq-eq s t (ground arith))

module _ (hmac : String → String → String) where
  verify_signature-expected :
      (body : String) (sent : Option String) (secret : String)
      → secret ≢ ""
      → verify_signature hmac body sent (some secret) ≡ true
      → sent ≡ some (expected_signature hmac secret body)
  unfolding verify_signature
  verify_signature-expected body none secret n h = ground (arith, eq_iff secret "")
  verify_signature-expected body (some s) secret n h =
      ap some
        (codes_eq-eq s (expected_signature hmac secret body) (ground (arith, eq_iff secret "")))

module _ {S : Type 0} (hmac : String → String → String) (parse_json : String → Option Value)
    (evaluate : String
      → Value
      → String
      → S
      → Result Error (Unit {0}) × S × List (EngineEventName × Payload))
    (secret at : String) where
  -- The engine and what is recorded of it are as they were, and the status is an error.
  abbrev IsOutside : App S → Reply × App S → Type 0
  IsOutside app (reply, app') =
      (app'.engine ≡ app.engine)
      × (app'.dashboard.engine_events ≡ app.dashboard.engine_events)
      × ((status_code reply ≡ 400) ⊎ (status_code reply ≡ 401))

  handle_webhook-IsOutside :
      (req : Request) (app : App S)
      → secret ≢ ""
      → signature req ≢ some (expected_signature hmac secret (raw_body req))
      → IsOutside app (handle_webhook hmac parse_json evaluate (some secret) at req app)
  unfolding handle_webhook reject record_webhook_event status_code
  handle_webhook-IsOutside req app n h =
      elim (Bool-cases (is_missing (github_event req) || is_missing (delivery_id req))) [
        | inl b ↦ rw b (refl, refl, inl refl)
        | inr b ↦
            elim (Bool-cases (verify_signature hmac (raw_body req) (signature req) (some secret))) [
              | inl v ↦ absurd (h (verify_signature-expected hmac _ _ secret n v))
              | inr v ↦ rw (b, v) (refl, refl, inr refl)
            ]
      ]

  -- With a secret that is not empty, a request whose signature header is not "sha256=" and the
  -- keyed hash of its body under the secret is answered with the status 400 or 401, and leaves the
  -- engine and the engine events of the dashboard as they were.
  pub respond-unsigned :
      (req : Request) (app : App S)
      → secret ≢ ""
      → signature req ≢ some (expected_signature hmac secret (raw_body req))
      → let (reply, app') = respond hmac parse_json evaluate (some secret) at req app in
        (app'.engine ≡ app.engine)
        × (app'.dashboard.engine_events ≡ app.dashboard.engine_events)
        × ((status_code reply ≡ 400) ⊎ (status_code reply ≡ 401))
  unfolding respond on_response record_log
  respond-unsigned req app n h = handle_webhook-IsOutside req app n h
