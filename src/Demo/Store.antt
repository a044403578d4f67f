-- ===== src/Demo/Store.antt =====
-- DemoNotification and createDemoStore of demo/src/rules.ts. Times are numbers, and the text that
-- `toISOString` gives for one is an argument.
use test_assestment.Common.{ℕ, ◌+◌, String, Option, List, [], ◌∷◌, ◌++◌}

-- What an action records: a notification without `id` and `createdAt`.
pub record NotificationInput : Type 0 where
  pub delivery_id : String
  pub event_name : String
  pub rule_id : String
  pub repository : Option String
  pub message : List ℕ
  pub url : Option String
  pub aggregate_count : Option ℕ

pub record DemoNotification : Type 0 where
  pub id : ℕ
  pub input : NotificationInput
  pub created_at : String

pub record DemoStore : Type 0 where
  pub notifications : List DemoNotification
  pub next_id : ℕ

unfoldable pub create_demo_store : DemoStore
create_demo_store = record { notifications = []; next_id = 1 }

unfoldable pub add : (ℕ → String) → ℕ → NotificationInput → DemoStore → DemoNotification × DemoStore
add iso now input s =
    let notification : DemoNotification = record {
      id = s.next_id;
      input = input;
      created_at = iso now;
    } in
    (
      notification,
      record { notifications = s.notifications ++ notification ∷ []; next_id = s.next_id + 1 },
    )

unfoldable pub list : DemoStore → List DemoNotification
list s = s.notifications

unfoldable pub clear : DemoStore → DemoStore
clear s = record { notifications = []; next_id = 1 }

-- Sequences of calls, each at the time that the clock reads.
pub data Call : Type 0 where
  adds : NotificationInput → Call
  lists : Call
  clears : Call

pub data Answer : Type 0 where
  added : DemoNotification → Answer
  listed : List DemoNotification → Answer
  cleared : Answer

module _ (iso : ℕ → String) where
  unfoldable pub call : ℕ → Call → DemoStore → Answer × DemoStore
  unfolding add list clear
  call now (adds input) s = let (n, s') = add iso now input s in (added n, s')
  call now lists s = (listed (list s), s)
  call now clears s = (cleared, clear s)

  unfoldable pub calls : List (ℕ × Call) → DemoStore → List Answer
  unfolding call
  calls [] s = []
  calls ((now, c) ∷ cs) s = let (answer, s') = call now c s in answer ∷ calls cs s'
