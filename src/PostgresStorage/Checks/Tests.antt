-- ===== src/PostgresStorage/Checks/Tests.antt =====
-- Runs of the table, and the theorems at them.
use test_assestment.Common.{
  ℕ, ◌+◌, String, ◌≡◌, refl, false, Bool, none, some, List, [], ◌∷◌, arith, All, sort_by, insert_by,
  Option,
}
use mathlib.Core.List.Perm
use mathlib.Core.Option
use test_assestment.ScheduledStore.{ScheduledCheck, Store, find, create}
use test_assestment.ScheduledStore
use test_assestment.ScheduledStore.Calls.{Call}
use test_assestment.PostgresStorage.Checks.{
  CheckRow, claim, enqueue, remove, reschedule, due, order_rows, insert_row, in_order, is_among,
  same_key, upsert, lease_rows, to_scheduled_check,
}
use test_assestment.PostgresStorage.Checks.Rows.{IsKeyed, is_keyed}
use test_assestment.PostgresStorage.Checks.Calls.{call, calls}
use test_assestment.PostgresStorage.Checks.Lookup.{lookup, stored_check}
use test_assestment.PostgresStorage.Checks.Leases
use test_assestment.PostgresStorage.Checks.Refinement

abbrev row : String → ℕ → Option ℕ → CheckRow ℕ
row key run_at until = record {
  rule_id = "quiet";
  key_id = key;
  run_at_ms = run_at;
  scheduled_at_ms = 0;
  deadline_ms = some 90;
  payload = run_at;
  leased_until_ms = until;
}

abbrev check : String → ℕ → ScheduledCheck ℕ
check key run_at = record {
  rule_id = "quiet";
  key_id = key;
  run_at = run_at;
  scheduled_at = 0;
  deadline = some 90;
  payload = run_at;
}

-- Two checks that are due at 50 and at 40, and one that is leased.
abbrev three : List (CheckRow ℕ)
three = row "a" 50 none ∷ row "b" 40 none ∷ row "c" 30 (some 80) ∷ []

-- An order of texts that tells none apart, and rows that come back as they stand.
abbrev no_order : String → String → Bool
no_order s t = false

abbrev as_found : List (CheckRow ℕ) → List (CheckRow ℕ)
as_found rows = rows

table : Unit {0}
unfolding claim enqueue remove reschedule due order_rows insert_row in_order is_among same_key
    upsert lease_rows to_scheduled_check sort_by insert_by call calls is_keyed
table = tt

claim_earliest : claim no_order as_found 60 2 30 three ≡ (
  check "b" 40 ∷ check "a" 50 ∷ [],
  row "a" 50 (some 90) ∷ row "b" 40 (some 90) ∷ row "c" 30 (some 80) ∷ [],
)
unfolding table
claim_earliest = refl

three-IsKeyed : IsKeyed three
unfolding table
three-IsKeyed = refl

claim-leased_example :
    let (claimed, rows') = claim no_order as_found 60 2 30 three in
    All
      (λ c.
        All
          (λ d. ¬ ((d.rule_id ≡ c.rule_id) × (d.key_id ≡ c.key_id)))
          (claim no_order as_found 85 5 30 rows').0)
      claimed
claim-leased_example =
    Leases.claim-leased no_order as_found (λ rows. Perm.refl rows) 60 85 2 5 30 30 three
      (omega arith)

-- A check is filed, filed again at another time, claimed and put off; another one is filed and removed.
abbrev session : List (Call ℕ)
session =
    Call.enqueue "quiet" "a" 50 7 0 none
    ∷ Call.enqueue "quiet" "b" 40 8 0 none
    ∷ Call.enqueue "quiet" "a" 60 9 10 (some 90)
    ∷ Call.claim 60 5 30
    ∷ Call.reschedule "quiet" "a" 70
    ∷ Call.remove "quiet" "b"
    ∷ []

session_rows :
    calls (λ n. n + 1) no_order as_found session []
    ≡ record {
      rule_id = "quiet";
      key_id = "a";
      run_at_ms = 70;
      scheduled_at_ms = 10;
      deadline_ms = some 90;
      payload = 10;
      leased_until_ms = none;
    }
      ∷ []
unfolding table
session_rows = refl

lookup-calls_example :
    lookup "quiet" "a" (calls (λ n. n + 1) no_order as_found session [])
    ≡ Option.map
        (stored_check (λ n. n + 1))
        (find "quiet" "a" (ScheduledStore.Calls.calls session create))
lookup-calls_example = Refinement.lookup-calls (λ n. n + 1) no_order as_found session "quiet" "a"
