-- ===== src/Demo/Dashboard/Tests.antt =====
-- Runs of the recorder and the page, and the theorem at two snapshots.
use test_assestment.Common.{
  String, ◌≡◌, refl, [], ◌∷◌, none, some, codes, decimal, digits_from, map,
}
use test_assestment.Entities.{text, undefined, object, field, no_fields, number}
use test_assestment.Demo.Store.{DemoNotification}
use test_assestment.Demo.Html.Escaping.{markup}
use test_assestment.Demo.Dashboard.{
  create_dashboard_recorder, record_log, safe_payload, Level, entries, value, error_value,
}
use test_assestment.Demo.Dashboard.Page.{DashboardSnapshot, render_dashboard, log_row}
use test_assestment.Demo.Dashboard.Markup
use test_assestment.Demo.Dashboard.Markup.{SameShape}

error_of_event :
    safe_payload (
      entries (
        ("ruleId", value (text "r"))
        ∷ ("error", error_value (record { name = "Error"; message = "no"; stack = "at" }))
        ∷ []))
    ≡ object (
        field "ruleId" (text "r") (
          field "error"
            (object (
              field "name"
                (text "Error")
                (field "message" (text "no") (field "stack" (text "at") no_fields))))
            no_fields))
unfolding safe_payload
error_of_event = refl

two_logs :
    map
      (λ l. l.id)
      (record_log "t"
        (record { level = Level.info; message = codes "b"; details = undefined })
        (record_log "t"
          (record { level = Level.warn; message = codes "a"; details = undefined })
          create_dashboard_recorder)).logs
    ≡ 1 ∷ 2 ∷ []
unfolding record_log create_dashboard_recorder
two_logs = refl

row_of_log :
    log_row
      (λ v. codes "{}")
      (record {
        id = 12;
        at = "t";
        input = record { level = Level.warn; message = codes "<b>"; details = number 1 };
      })
    ≡ codes "<tr><td>12</td><td>t</td><td>warn</td><td>&lt;b&gt;</td><td><pre>{}</pre></td></tr>"
unfolding log_row decimal digits_from
row_of_log = refl

abbrev notification : String → DemoNotification
notification message = record {
  id = 1;
  input = record {
    delivery_id = "d";
    event_name = "issues.closed";
    rule_id = "r";
    repository = none;
    message = codes message;
    url = some "https://example.org";
    aggregate_count = some 3;
  };
  created_at = "t";
}

abbrev snapshot : String → DashboardSnapshot
snapshot message = record {
  notifications = notification message ∷ [];
  logs = [];
  webhook_events = [];
  engine_events = [];
}

markup-render_dashboard_example :
    markup (render_dashboard (λ v. codes "{}") (snapshot "</td><script>"))
    ≡ markup (render_dashboard (λ v. codes "<>") (snapshot "fine"))
markup-render_dashboard_example =
    Markup.markup-render_dashboard (λ v. codes "{}") (λ v. codes "<>") (snapshot "</td><script>")
      (snapshot "fine") (record { links = refl; webhooks = refl; engines = refl; details = refl })
