-- ===== src/Demo/Dashboard.antt =====
-- createDashboardRecorder and safePayload of demo/src/dashboard.ts. The text of the time at which
-- something is recorded is an argument.
pub mod Page
pub mod Rows
pub mod Markup
mod Tests
use test_assestment.Common.{ℕ, ◌+◌, String, Option, List, [], ◌∷◌, ◌++◌}
use test_assestment.Entities.{Value, Fields, no_fields, field, object, text}

pub data Level : Type 0 where
  info warn error : Level

pub data Outcome : Type 0 where
  accepted ignored rejected failed : Outcome

-- `keyof EngineEventMap`, all of whose names the dashboard subscribes to.
pub data EngineEventName : Type 0 where
  rule_matched rule_skipped predicate_evaluated external_call aggregate_appended scheduled_enqueued
        scheduled_checked evaluation_completed evaluation_failed :
      EngineEventName

-- A value that is not there is undefined.
pub record LogInput : Type 0 where
  pub level : Level
  pub message : List ℕ
  pub details : Value

pub record WebhookInput : Type 0 where
  pub delivery_id : Option String
  pub github_event : Option String
  pub engine_event : Option String
  pub outcome : Outcome
  pub status_code : ℕ
  pub reason : Option String
  pub payload : Value

pub record DashboardLogEntry : Type 0 where
  pub id : ℕ
  pub at : String
  pub input : LogInput

pub record DashboardWebhookEvent : Type 0 where
  pub id : ℕ
  pub at : String
  pub input : WebhookInput

pub record DashboardEngineEvent : Type 0 where
  pub id : ℕ
  pub at : String
  pub name : EngineEventName
  pub payload : Value

-- An object of class `Error`.
pub record ErrorValue : Type 0 where
  pub name : String
  pub message : String
  pub stack : String

pub data Entry : Type 0 where
  value : Value → Entry
  error_value : ErrorValue → Entry

-- What an engine event carries: one value, or an object with its entries.
pub data Payload : Type 0 where
  whole : Entry → Payload
  entries : List (String × Entry) → Payload

unfoldable pub safe_entry : Entry → Value
safe_entry (value v) = v
safe_entry (error_value e) = object (
    field "name" (text e.name)
      (field "message" (text e.message) (field "stack" (text e.stack) no_fields)))

unfoldable pub from_entries : List (String × Entry) → Fields
unfolding safe_entry
from_entries [] = no_fields
from_entries ((key, entry) ∷ es) = field key (safe_entry entry) (from_entries es)

unfoldable pub safe_payload : Payload → Value
unfolding from_entries
safe_payload (whole entry) = safe_entry entry
safe_payload (entries es) = object (from_entries es)

pub record DashboardRecorder : Type 0 where
  pub logs : List DashboardLogEntry
  pub webhook_events : List DashboardWebhookEvent
  pub engine_events : List DashboardEngineEvent
  pub next_log_id : ℕ
  pub next_webhook_event_id : ℕ
  pub next_engine_event_id : ℕ

unfoldable pub create_dashboard_recorder : DashboardRecorder
create_dashboard_recorder = record {
  logs = [];
  webhook_events = [];
  engine_events = [];
  next_log_id = 1;
  next_webhook_event_id = 1;
  next_engine_event_id = 1;
}

unfoldable pub record_log : String → LogInput → DashboardRecorder → DashboardRecorder
record_log at input d = record d {
  logs = d.logs ++ record { id = d.next_log_id; at = at; input = input } ∷ [];
  next_log_id = d.next_log_id + 1;
}

unfoldable pub record_webhook_event : String → WebhookInput → DashboardRecorder → DashboardRecorder
record_webhook_event at input d = record d {
  webhook_events =
      d.webhook_events ++ record { id = d.next_webhook_event_id; at = at; input = input } ∷ [];
  next_webhook_event_id = d.next_webhook_event_id + 1;
}

unfoldable pub record_engine_event :
    String → EngineEventName → Payload → DashboardRecorder → DashboardRecorder
unfolding safe_payload
record_engine_event at name payload d = record d {
  engine_events =
      d.engine_events
      ++ record {
        id = d.next_engine_event_id;
        at = at;
        name = name;
        payload = safe_payload payload;
      }
        ∷ [];
  next_engine_event_id = d.next_engine_event_id + 1;
}
