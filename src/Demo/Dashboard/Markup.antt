-- ===== src/Demo/Dashboard/Markup.antt =====
-- The markup of the page does not depend on the texts that it shows.
use test_assestment.Common.{ℕ, String, ◌≡◌, refl, Bool, List, [], ◌∷◌, map, codes, filter-append}
use mathlib.Core.List.{flatten}
use mathlib.Core.Option
use test_assestment.Entities.{Value}
use test_assestment.Demo.Html.Escaping.{markup}
use test_assestment.Demo.Store.{DemoNotification}
use test_assestment.Demo.Dashboard.{DashboardLogEntry, DashboardWebhookEvent, DashboardEngineEvent}
use test_assestment.Demo.Dashboard.Page.{
  DashboardSnapshot, notification_row, webhook_event_row, engine_event_row, log_row, section_body,
  section, render_notifications, render_webhook_events, render_engine_events, render_logs, page,
  render_dashboard, notification_heads, webhook_heads, engine_heads, log_heads,
}
use test_assestment.Demo.Dashboard.Rows.{
  is_linked, is_shown, markup-decimal, markup-notification_row, markup-webhook_event_row,
  markup-engine_event_row, markup-log_row,
}

module _ {A : Type 0} (row row' : A → List ℕ) (shape : A → Bool)
    (same : (x y : A) → shape x ≡ shape y → markup (row x) ≡ markup (row' y)) where
  markup-rows :
      (xs ys : List A)
      → map shape xs ≡ map shape ys
      → markup (flatten (map row xs)) ≡ markup (flatten (map row' ys))
  unfolding flatten
  markup-rows [] [] e = refl
  markup-rows [] (y ∷ ys) e = cc
  markup-rows (x ∷ xs) [] e = cc
  markup-rows (x ∷ xs) (y ∷ ys) e =
      rw (filter-append, filter-append, same x y (cc), markup-rows xs ys (cc))

  markup-section :
      (title heads : String) (xs ys : List A)
      → map shape xs ≡ map shape ys
      → markup (section title heads row xs) ≡ markup (section title heads row' ys)
  unfolding section section_body
  markup-section title heads [] [] e = refl
  markup-section title heads [] (y ∷ ys) e = cc
  markup-section title heads (x ∷ xs) [] e = cc
  markup-section title heads (x ∷ xs) (y ∷ ys) e =
      simp (filter-append, markup-decimal, markup-rows (x ∷ xs) (y ∷ ys) e)

markup-page :
    (n n' w w' e e' l l' : List ℕ)
    → markup n ≡ markup n'
    → markup w ≡ markup w'
    → markup e ≡ markup e'
    → markup l ≡ markup l'
    → markup (page n w e l) ≡ markup (page n' w' e' l')
unfolding page
markup-page n n' w w' e e' l l' a b c d = simp (filter-append, a, b, c, d)

-- Two snapshots with as many entries, and with links and payloads at the same places.
pub record SameShape (s s' : DashboardSnapshot) : Type 0 where
  pub links :
      map (λ n. is_linked (Option.map codes n.input.url)) s.notifications
      ≡ map (λ n. is_linked (Option.map codes n.input.url)) s'.notifications
  pub webhooks :
      map (λ e. is_shown e.input.payload) s.webhook_events
      ≡ map (λ e. is_shown e.input.payload) s'.webhook_events
  pub engines :
      map (λ e. is_shown e.payload) s.engine_events ≡ map (λ e. is_shown e.payload) s'.engine_events
  pub details :
      map (λ l. is_shown l.input.details) s.logs ≡ map (λ l. is_shown l.input.details) s'.logs

markup-render_notifications :
    (ns ms : List DemoNotification)
    → map (λ n. is_linked (Option.map codes n.input.url)) ns
      ≡ map (λ n. is_linked (Option.map codes n.input.url)) ms
    → markup (render_notifications ns) ≡ markup (render_notifications ms)
unfolding render_notifications
markup-render_notifications ns ms e =
    markup-section notification_row notification_row (λ n. is_linked (Option.map codes n.input.url))
      markup-notification_row "Notifications" notification_heads ns ms e

module _ (stringify stringify' : Value → List ℕ) where
  markup-render_webhook_events :
      (xs ys : List DashboardWebhookEvent)
      → map (λ e. is_shown e.input.payload) xs ≡ map (λ e. is_shown e.input.payload) ys
      → markup (render_webhook_events stringify xs) ≡ markup (render_webhook_events stringify' ys)
  unfolding render_webhook_events
  markup-render_webhook_events xs ys e =
      markup-section (webhook_event_row stringify) (webhook_event_row stringify')
        (λ e. is_shown e.input.payload) (markup-webhook_event_row stringify stringify')
        "Webhook Events" webhook_heads xs ys e

  markup-render_engine_events :
      (xs ys : List DashboardEngineEvent)
      → map (λ e. is_shown e.payload) xs ≡ map (λ e. is_shown e.payload) ys
      → markup (render_engine_events stringify xs) ≡ markup (render_engine_events stringify' ys)
  unfolding render_engine_events
  markup-render_engine_events xs ys e =
      markup-section (engine_event_row stringify) (engine_event_row stringify')
        (λ e. is_shown e.payload) (markup-engine_event_row stringify stringify') "Engine Events"
        engine_heads xs ys e

  markup-render_logs :
      (xs ys : List DashboardLogEntry)
      → map (λ l. is_shown l.input.details) xs ≡ map (λ l. is_shown l.input.details) ys
      → markup (render_logs stringify xs) ≡ markup (render_logs stringify' ys)
  unfolding render_logs
  markup-render_logs xs ys e =
      markup-section (log_row stringify) (log_row stringify') (λ l. is_shown l.input.details)
        (markup-log_row stringify stringify') "Logs" log_heads xs ys e

-- Two snapshots with as many notifications, webhook events, engine events and logs, whose links
-- and payloads are present at the same places, give pages with the same sequence of angle brackets
-- and quotes, whatever texts, numbers and JSON they hold.
pub markup-render_dashboard :
    (stringify stringify' : Value → List ℕ) (s s' : DashboardSnapshot)
    → SameShape s s'
    → markup (render_dashboard stringify s) ≡ markup (render_dashboard stringify' s')
unfolding render_dashboard
markup-render_dashboard stringify stringify' s s' h =
    markup-page (render_notifications s.notifications) (render_notifications s'.notifications)
      (render_webhook_events stringify s.webhook_events)
      (render_webhook_events stringify' s'.webhook_events)
      (render_engine_events stringify s.engine_events)
      (render_engine_events stringify' s'.engine_events) (render_logs stringify s.logs)
      (render_logs stringify' s'.logs)
      (markup-render_notifications s.notifications s'.notifications h.links)
      (markup-render_webhook_events stringify stringify' s.webhook_events s'.webhook_events
        h.webhooks)
      (markup-render_engine_events stringify stringify' s.engine_events s'.engine_events h.engines)
      (markup-render_logs stringify stringify' s.logs s'.logs h.details)
