-- ===== src/PostgresStorage/Notifications/Tests.antt =====
-- A run of the table, and the theorem at it.
use test_assestment.Common.{
  ℕ, String, ◌≡◌, refl, List, [], ◌∷◌, none, some, codes, sort_by, insert_by,
}
use test_assestment.Demo.Store.{
  NotificationInput, DemoNotification, Call, adds, lists, clears, added, listed, cleared,
  create_demo_store,
}
use test_assestment.Demo
use test_assestment.PostgresStorage.Notifications.{init, calls}
use test_assestment.PostgresStorage.Notifications.Refinement

abbrev iso : ℕ → String
iso n = "2024-01-01T00:00:00.000Z"

abbrev input : String → NotificationInput
input delivery_id = record {
  delivery_id = delivery_id;
  event_name = "issues.closed";
  rule_id = "issue-closed-quiet";
  repository = some "acme/api";
  message = codes "Issue #7 stayed closed for 5m";
  url = none;
  aggregate_count = none;
}

abbrev notification : ℕ → String → DemoNotification
notification id delivery_id = record {
  id = id;
  input = input delivery_id;
  created_at = "2024-01-01T00:00:00.000Z";
}

abbrev session : List (ℕ × Call)
session =
    (1, adds (input "a"))
    ∷ (2, adds (input "b"))
    ∷ (3, lists)
    ∷ (4, clears)
    ∷ (5, adds (input "c"))
    ∷ []

session_answers :
    calls iso session init
    ≡ added (notification 1 "a")
      ∷ added (notification 2 "b")
      ∷ listed (notification 1 "a" ∷ notification 2 "b" ∷ [])
      ∷ cleared
      ∷ added (notification 1 "c")
      ∷ []
unfolding calls init sort_by insert_by
session_answers = refl

calls-create_example : calls iso session init ≡ Demo.Store.calls iso session create_demo_store
calls-create_example = Refinement.calls-create iso session
