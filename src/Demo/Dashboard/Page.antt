-- ===== src/Demo/Dashboard/Page.antt =====
-- renderDashboard and its tables, demo/src/dashboard.ts.
use test_assestment.Common.{
  ℕ, String, List, [], ◌∷◌, ◌++◌, Option, none, some, map, length, codes, decimal,
}
use mathlib.Core.Option
use mathlib.Core.List.{flatten}
use test_assestment.Entities.{Value, undefined}
use test_assestment.Demo.Html.{escape_html, empty, link, json_block}
use test_assestment.Demo.Store.{DemoNotification}
use test_assestment.Demo.Dashboard.{
  DashboardLogEntry, DashboardWebhookEvent, DashboardEngineEvent, Level, Outcome, EngineEventName,
}

pub record DashboardSnapshot : Type 0 where
  pub notifications : List DemoNotification
  pub logs : List DashboardLogEntry
  pub webhook_events : List DashboardWebhookEvent
  pub engine_events : List DashboardEngineEvent

unfoldable pub level_text : Level → String
level_text Level.info = "info"
level_text Level.warn = "warn"
level_text Level.error = "error"

unfoldable pub outcome_text : Outcome → String
outcome_text Outcome.accepted = "accepted"
outcome_text Outcome.ignored = "ignored"
outcome_text Outcome.rejected = "rejected"
outcome_text Outcome.failed = "failed"

unfoldable pub event_text : EngineEventName → String
event_text EngineEventName.rule_matched = "rule.matched"
event_text EngineEventName.rule_skipped = "rule.skipped"
event_text EngineEventName.predicate_evaluated = "predicate.evaluated"
event_text EngineEventName.external_call = "external.call"
event_text EngineEventName.aggregate_appended = "aggregate.appended"
event_text EngineEventName.scheduled_enqueued = "scheduled.enqueued"
event_text EngineEventName.scheduled_checked = "scheduled.checked"
event_text EngineEventName.evaluation_completed = "evaluation.completed"
event_text EngineEventName.evaluation_failed = "evaluation.failed"

-- A cell of a table.
abbrev pub cell : List ℕ → List ℕ
cell content = codes "<td>" ++ (content ++ codes "</td>")

-- The cells of a row in their order.
unfoldable pub cells : List (List ℕ) → List ℕ
cells [] = []
cells (c ∷ cs) = cell c ++ cells cs

unfoldable pub table_row : List (List ℕ) → List ℕ
unfolding cells
table_row cs = codes "<tr>" ++ (cells cs ++ codes "</tr>")

-- `${value ?? ''}`
abbrev pub or_empty : Option String → List ℕ
or_empty none = []
or_empty (some s) = codes s

abbrev pub count_text : Option ℕ → List ℕ
count_text none = []
count_text (some n) = decimal n

unfoldable pub notification_cells : DemoNotification → List (List ℕ)
unfolding escape_html link
notification_cells n =
    decimal n.id
    ∷ escape_html (codes n.created_at)
    ∷ escape_html (codes n.input.delivery_id)
    ∷ escape_html (codes n.input.event_name)
    ∷ escape_html (codes n.input.rule_id)
    ∷ escape_html (or_empty n.input.repository)
    ∷ escape_html n.input.message
    ∷ link (Option.map codes n.input.url)
    ∷ count_text n.input.aggregate_count
    ∷ []

unfoldable pub notification_row : DemoNotification → List ℕ
unfolding table_row notification_cells
notification_row n = table_row (notification_cells n)

module _ (stringify : Value → List ℕ) where
  -- `JSON.stringify(value, null, 2)` of a value that is not undefined
  abbrev pub json_of : Value → Option (List ℕ)
  json_of undefined = none
  json_of v = some (stringify v)

  unfoldable pub webhook_event_cells : DashboardWebhookEvent → List (List ℕ)
  unfolding escape_html json_block outcome_text
  webhook_event_cells event =
      decimal event.id
      ∷ escape_html (codes event.at)
      ∷ escape_html (or_empty event.input.delivery_id)
      ∷ escape_html (or_empty event.input.github_event)
      ∷ escape_html (or_empty event.input.engine_event)
      ∷ escape_html (codes (outcome_text event.input.outcome))
      ∷ decimal event.input.status_code
      ∷ escape_html (or_empty event.input.reason)
      ∷ json_block (json_of event.input.payload)
      ∷ []

  unfoldable pub webhook_event_row : DashboardWebhookEvent → List ℕ
  unfolding table_row webhook_event_cells
  webhook_event_row event = table_row (webhook_event_cells event)

  unfoldable pub engine_event_cells : DashboardEngineEvent → List (List ℕ)
  unfolding escape_html json_block event_text
  engine_event_cells event =
      decimal event.id
      ∷ escape_html (codes event.at)
      ∷ escape_html (codes (event_text event.name))
      ∷ json_block (json_of event.payload)
      ∷ []

  unfoldable pub engine_event_row : DashboardEngineEvent → List ℕ
  unfolding table_row engine_event_cells
  engine_event_row event = table_row (engine_event_cells event)

  unfoldable pub log_cells : DashboardLogEntry → List (List ℕ)
  unfolding escape_html json_block level_text
  log_cells log =
      decimal log.id
      ∷ escape_html (codes log.at)
      ∷ escape_html (codes (level_text log.input.level))
      ∷ escape_html log.input.message
      ∷ json_block (json_of log.input.details)
      ∷ []

  unfoldable pub log_row : DashboardLogEntry → List ℕ
  unfolding table_row log_cells
  log_row log = table_row (log_cells log)

-- The four sections differ in their title, the heads of their columns and their rows.
module _ {A : Type 0} (title heads : String) (row : A → List ℕ) where
  unfoldable pub section_body : List A → List ℕ
  unfolding empty
  section_body [] = empty
  section_body (x ∷ xs) =
      codes "<table>\n      <thead><tr>"
      ++ (codes heads
          ++ (codes "</tr></thead>\n      <tbody>"
              ++ (flatten (map row (x ∷ xs)) ++ codes "</tbody>\n    </table>")))

  unfoldable pub section : List A → List ℕ
  unfolding section_body
  section xs =
      codes "<section>\n    <h2>"
      ++ (codes title
          ++ (codes " ("
              ++ (decimal (length xs)
                  ++ (codes ")</h2>\n    " ++ (section_body xs ++ codes "\n  </section>")))))

abbrev pub notification_heads : String
notification_heads =
    "<th>ID</th><th>Created</th><th>Delivery</th><th>Event</th><th>Rule</th><th>Repository</th><th>Message</th><th>URL</th><th>Count</th>"

abbrev pub webhook_heads : String
webhook_heads =
    "<th>ID</th><th>At</th><th>Delivery</th><th>GitHub Event</th><th>Engine Event</th><th>Outcome</th><th>Status</th><th>Reason</th><th>Payload</th>"

abbrev pub engine_heads : String
engine_heads = "<th>ID</th><th>At</th><th>Name</th><th>Payload</th>"

abbrev pub log_heads : String
log_heads = "<th>ID</th><th>At</th><th>Level</th><th>Message</th><th>Details</th>"

unfoldable pub render_notifications : List DemoNotification → List ℕ
unfolding section
render_notifications ns = section "Notifications" notification_heads notification_row ns

module _ (stringify : Value → List ℕ) where
  unfoldable pub render_webhook_events : List DashboardWebhookEvent → List ℕ
  unfolding section
  render_webhook_events events =
      section "Webhook Events" webhook_heads (webhook_event_row stringify) events

  unfoldable pub render_engine_events : List DashboardEngineEvent → List ℕ
  unfolding section
  render_engine_events events =
      section "Engine Events" engine_heads (engine_event_row stringify) events

  unfoldable pub render_logs : List DashboardLogEntry → List ℕ
  unfolding section
  render_logs logs = section "Logs" log_heads (log_row stringify) logs

-- The page up to its first section, line by line.
abbrev pub page_head : List String
page_head =
    "<!doctype html>\n" ∷ "<html lang=\"en\">\n" ∷ "<head>\n" ∷ "  <meta charset=\"utf-8\">\n"
    ∷ "  <meta name=\"viewport\" content=\"width=device-width, initial-scale=1\">\n"
    ∷ "  <title>Air Demo Dashboard</title>\n" ∷ "  <style>\n"
    ∷ "    body { font-family: system-ui, sans-serif; margin: 24px; color: #1f2937; background: #f8fafc; }\n"
    ∷ "    h1, h2 { margin: 0 0 12px; }\n"
    ∷ "    section { margin: 24px 0; padding: 16px; background: white; border: 1px solid #e5e7eb; border-radius: 8px; }\n"
    ∷ "    table { width: 100%; border-collapse: collapse; font-size: 14px; }\n"
    ∷ "    th, td { padding: 8px; border-bottom: 1px solid #e5e7eb; text-align: left; vertical-align: top; }\n"
    ∷ "    th { background: #f1f5f9; }\n"
    ∷ "    pre { margin: 0; white-space: pre-wrap; word-break: break-word; max-width: 600px; }\n"
    ∷ "    .muted { color: #64748b; }\n" ∷ "    .links { margin: 8px 0 20px; }\n"
    ∷ "    .links a { margin-right: 12px; }\n" ∷ "  </style>\n" ∷ "</head>\n" ∷ "<body>\n"
    ∷ "  <h1>Air Demo Dashboard</h1>\n" ∷ "  <div class=\"links\">\n"
    ∷ "    <a href=\"/demo/dashboard\">Refresh</a>\n"
    ∷ "    <a href=\"/demo/dashboard/data\">JSON data</a>\n"
    ∷ "    <a href=\"/demo/notifications\">Notifications JSON</a>\n" ∷ "  </div>\n" ∷ "\n" ∷ "  "
    ∷ []

unfoldable pub page_start : List ℕ
unfolding flatten
page_start = flatten (map codes page_head)

-- The template around the four sections.
unfoldable pub page : List ℕ → List ℕ → List ℕ → List ℕ → List ℕ
unfolding page_start
page notifications webhook_events engine_events logs =
    page_start
    ++ (notifications
        ++ (codes "\n  "
            ++ (webhook_events
                ++ (codes "\n  "
                    ++ (engine_events ++ (codes "\n  " ++ (logs ++ codes "\n</body>\n</html>")))))))

unfoldable pub render_dashboard : (Value → List ℕ) → DashboardSnapshot → List ℕ
unfolding page render_notifications render_webhook_events render_engine_events render_logs
render_dashboard stringify snapshot =
    page (render_notifications snapshot.notifications)
      (render_webhook_events stringify snapshot.webhook_events)
      (render_engine_events stringify snapshot.engine_events) (render_logs stringify snapshot.logs)
