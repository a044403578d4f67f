-- ===== src/Demo/Dashboard/Rows.antt =====
-- The markup of one row of each table.
use test_assestment.Common.{
  ℕ, ◌≡◌, refl, sym, ap, ◌∙◌, Bool, true, false, List, [], ◌∷◌, ◌++◌, Option, none, some, map,
  if◌then◌else◌, codes, decimal, decimal-All, filter-append, filter_of_none, All-mono, arith,
}
use mathlib.Core.List.{append_assoc}
use mathlib.Core.Option
use test_assestment.Entities.{Value, undefined}
use test_assestment.Demo.Html.{link, json_block}
use test_assestment.Demo.Html.Escaping.{is_markup, markup, markup-escape_html}
use test_assestment.Demo.Store.{DemoNotification}
use test_assestment.Demo.Dashboard.{DashboardLogEntry, DashboardWebhookEvent, DashboardEngineEvent}
use test_assestment.Demo.Dashboard.Page.{
  cells, table_row, count_text, json_of, notification_row, notification_cells, webhook_event_cells,
  engine_event_cells, log_cells, webhook_event_row, engine_event_row, log_row,
}

pub markup-decimal : (n : ℕ) → markup (decimal n) ≡ []
markup-decimal n =
    filter_of_none is_markup (decimal n) (All-mono (λ c (lo, hi). ground arith) _ (decimal-All n))

markup-count_text : (n : Option ℕ) → markup (count_text n) ≡ []
markup-count_text none = refl
markup-count_text (some n) = markup-decimal n

-- A link is shown for a text that is not empty.
abbrev pub is_linked : Option (List ℕ) → Bool
is_linked none = false
is_linked (some []) = false
is_linked (some (c ∷ url)) = true

markup-link :
    (url : Option (List ℕ)) → markup (link url) ≡ (if is_linked url then codes "<\"\"><>" else [])
unfolding link
markup-link none = refl
markup-link (some []) = refl
markup-link (some (c ∷ url)) = simp (filter-append, markup-escape_html)

abbrev pub is_shown : Value → Bool
is_shown undefined = false
is_shown v = true

markup-json_some : (json : List ℕ) → markup (json_block (some json)) ≡ codes "<><>"
unfolding json_block
markup-json_some json = simp (filter-append, markup-escape_html)

markup-json_block :
    (stringify : Value → List ℕ) (v : Value)
    → markup (json_block (json_of stringify v)) ≡ (if is_shown v then codes "<><>" else [])
unfolding json_block
markup-json_block stringify undefined = refl
markup-json_block stringify v = markup-json_some (stringify v)

-- What a row shows of its cells' markup.
row_markup : List (List ℕ) → List ℕ
row_markup [] = codes "<>"
row_markup (m ∷ ms) = codes "<>" ++ (m ++ (codes "<>" ++ row_markup ms))

markup-cells :
    (cs : List (List ℕ)) → markup (cells cs ++ codes "</tr>") ≡ row_markup (map markup cs)
unfolding cells row_markup
markup-cells [] = refl
markup-cells (c ∷ cs) =
    let ih : markup (cells cs) ++ codes "<>" ≡ row_markup (map markup cs) =
      sym (filter-append is_markup (cells cs) (codes "</tr>")) ∙ markup-cells cs in
    simp (filter-append, append_assoc, ih)

markup-table_row :
    (cs ds : List (List ℕ))
    → map markup cs ≡ map markup ds
    → markup (table_row cs) ≡ markup (table_row ds)
unfolding table_row
markup-table_row cs ds e =
    ap (λ m. codes "<>" ++ m) (markup-cells cs ∙ ap row_markup e ∙ sym (markup-cells ds))

pub markup-notification_row :
    (n m : DemoNotification)
    → is_linked (Option.map codes n.input.url) ≡ is_linked (Option.map codes m.input.url)
    → markup (notification_row n) ≡ markup (notification_row m)
unfolding notification_row
markup-notification_row n m e = markup-table_row (notification_cells n) (notification_cells m) (
    unfold notification_cells in
    simp (markup-decimal, markup-escape_html, markup-link, markup-count_text, e))

module _ (stringify stringify' : Value → List ℕ) where
  pub markup-webhook_event_row :
      (x y : DashboardWebhookEvent)
      → is_shown x.input.payload ≡ is_shown y.input.payload
      → markup (webhook_event_row stringify x) ≡ markup (webhook_event_row stringify' y)
  unfolding webhook_event_row
  markup-webhook_event_row x y e =
      markup-table_row (webhook_event_cells stringify x) (webhook_event_cells stringify' y) (
        unfold webhook_event_cells in
        simp (markup-decimal, markup-escape_html, markup-json_block, e))

  pub markup-engine_event_row :
      (x y : DashboardEngineEvent)
      → is_shown x.payload ≡ is_shown y.payload
      → markup (engine_event_row stringify x) ≡ markup (engine_event_row stringify' y)
  unfolding engine_event_row
  markup-engine_event_row x y e =
      markup-table_row (engine_event_cells stringify x) (engine_event_cells stringify' y) (
        unfold engine_event_cells in
        simp (markup-decimal, markup-escape_html, markup-json_block, e))

  pub markup-log_row :
      (x y : DashboardLogEntry)
      → is_shown x.input.details ≡ is_shown y.input.details
      → markup (log_row stringify x) ≡ markup (log_row stringify' y)
  unfolding log_row
  markup-log_row x y e =
      markup-table_row (log_cells stringify x) (log_cells stringify' y)
        (unfold log_cells in simp (markup-decimal, markup-escape_html, markup-json_block, e))
