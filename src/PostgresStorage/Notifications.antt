-- ===== src/PostgresStorage/Notifications.antt =====
-- The methods add, list and clear of class PostgresDemoStorage of demo/src/postgres-storage.ts, over
-- the table demo_notifications.
pub mod Refinement
mod Tests
use test_assestment.Common.{ℕ, ◌+◌, String, Option, List, [], ◌∷◌, ◌++◌, map, sort_by}
use test_assestment.Demo.Store.{
  NotificationInput, DemoNotification, Call, Answer, adds, lists, clears, added, listed, cleared,
}

pub record NotificationRow : Type 0 where
  pub id : ℕ
  pub delivery_id : String
  pub event_name : String
  pub rule_id : String
  pub repository : Option String
  pub message : List ℕ
  pub url : Option String
  pub aggregate_count : Option ℕ
  pub created_at : ℕ

pub record NotificationTable : Type 0 where
  pub rows : List NotificationRow
  pub next_id : ℕ

unfoldable pub init : NotificationTable
init = record { rows = []; next_id = 1 }

unfoldable pub to_notification : (ℕ → String) → NotificationRow → DemoNotification
to_notification iso row = record {
  id = row.id;
  input = record {
    delivery_id = row.delivery_id;
    event_name = row.event_name;
    rule_id = row.rule_id;
    repository = row.repository;
    message = row.message;
    url = row.url;
    aggregate_count = row.aggregate_count;
  };
  created_at = iso row.created_at;
}

-- `INSERT … RETURNING …`; `now` is the time of the database.
unfoldable pub add :
    (ℕ → String) → ℕ → NotificationInput → NotificationTable → DemoNotification × NotificationTable
unfolding to_notification
add iso now input t =
    let row : NotificationRow = record {
      id = t.next_id;
      delivery_id = input.delivery_id;
      event_name = input.event_name;
      rule_id = input.rule_id;
      repository = input.repository;
      message = input.message;
      url = input.url;
      aggregate_count = input.aggregate_count;
      created_at = now;
    } in
    (to_notification iso row, record { rows = t.rows ++ row ∷ []; next_id = t.next_id + 1 })

-- `ORDER BY id ASC`
unfoldable pub list : (ℕ → String) → NotificationTable → List DemoNotification
unfolding to_notification
list iso t = map (to_notification iso) (sort_by (λ row. row.id) t.rows)

-- `TRUNCATE demo_notifications RESTART IDENTITY`
unfoldable pub clear : NotificationTable → NotificationTable
clear t = record { rows = []; next_id = 1 }

module _ (iso : ℕ → String) where
  unfoldable pub call : ℕ → Call → NotificationTable → Answer × NotificationTable
  unfolding add list clear
  call now (adds input) t = let (n, t') = add iso now input t in (added n, t')
  call now lists t = (listed (list iso t), t)
  call now clears t = (cleared, clear t)

  unfoldable pub calls : List (ℕ × Call) → NotificationTable → List Answer
  unfolding call
  calls [] t = []
  calls ((now, c) ∷ cs) t = let (answer, t') = call now c t in answer ∷ calls cs t'
