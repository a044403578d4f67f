-- ===== src/PostgresStorage/Checks.antt =====
-- class PostgresScheduledStore of demo/src/postgres-storage.ts over the table
-- demo_scheduled_checks. The order of texts in the database is an argument, and so is the order in
-- which it gives back the rows of an update.
pub mod Rows
pub mod Order
pub mod Claims
pub mod Leases
pub mod Lookup
pub mod Calls
pub mod Keys
pub mod Refinement
mod Tests
use test_assestment.Common.{
  ℕ, ◌+◌, String, Bool, true, false, ◌&&◌, ◌||◌, not, Option, none, some, List, [], ◌∷◌, ◌==◌, map,
  leb, ltb, nat_eq, filter, take, sort_by, if◌then◌else◌,
}
use test_assestment.ScheduledStore.{ScheduledCheck}

pub record CheckRow {ℓ} (P : Type ℓ) : Type ℓ where
  pub rule_id : String
  pub key_id : String
  pub run_at_ms : ℕ
  pub scheduled_at_ms : ℕ
  pub deadline_ms : Option ℕ
  pub payload : P
  pub leased_until_ms : Option ℕ

-- `leased_until_ms IS NULL OR leased_until_ms <= $1`
abbrev pub is_free : ℕ → Option ℕ → Bool
is_free now none = true
is_free now (some until) = leb until now

module _ {ℓ} {P : Type ℓ} where
  -- `rule_id = $1 AND key_id = $2`
  abbrev pub is_of : String → String → CheckRow P → Bool
  is_of rule_id key_id row = row.rule_id == rule_id && row.key_id == key_id

  -- The primary key of the first row is that of the second.
  unfoldable pub same_key : CheckRow P → CheckRow P → Bool
  same_key a b = is_of a.rule_id a.key_id b

  unfoldable pub to_scheduled_check : CheckRow P → ScheduledCheck P
  to_scheduled_check row = record {
    rule_id = row.rule_id;
    key_id = row.key_id;
    run_at = row.run_at_ms;
    scheduled_at = row.scheduled_at_ms;
    deadline = row.deadline_ms;
    payload = row.payload;
  }

  -- `INSERT … ON CONFLICT (rule_id, key_id) DO UPDATE SET …`: the row of the key takes every column
  -- of the new one.
  unfoldable pub upsert : CheckRow P → List (CheckRow P) → List (CheckRow P)
  upsert new [] = new ∷ []
  upsert new (row ∷ rows) = if same_key new row then new ∷ rows else row ∷ upsert new rows

  -- What a payload is read back as, once `toJson` has written it to a `jsonb` column.
  unfoldable pub enqueue :
      (P → P) → String → String → ℕ → P → ℕ → Option ℕ → List (CheckRow P) → List (CheckRow P)
  unfolding upsert
  enqueue stored rule_id key_id run_at payload scheduled_at deadline rows =
      upsert
        (record {
          rule_id = rule_id;
          key_id = key_id;
          run_at_ms = run_at;
          scheduled_at_ms = scheduled_at;
          deadline_ms = deadline;
          payload = stored payload;
          leased_until_ms = none;
        })
        rows

  abbrev pub is_due : ℕ → CheckRow P → Bool
  is_due now row = leb row.run_at_ms now && is_free now row.leased_until_ms

  module _ (text_lt : String → String → Bool) where
    -- `ORDER BY run_at_ms ASC, rule_id ASC, key_id ASC`: no row of the second stands first.
    unfoldable pub in_order : CheckRow P → CheckRow P → Bool
    in_order a b =
        ltb a.run_at_ms b.run_at_ms
        || nat_eq a.run_at_ms b.run_at_ms
          && (text_lt a.rule_id b.rule_id
              || a.rule_id == b.rule_id && not (text_lt b.key_id a.key_id))

    unfoldable pub insert_row : CheckRow P → List (CheckRow P) → List (CheckRow P)
    insert_row x [] = x ∷ []
    insert_row x (y ∷ ys) = if in_order x y then x ∷ y ∷ ys else y ∷ insert_row x ys

    unfoldable pub order_rows : List (CheckRow P) → List (CheckRow P)
    order_rows [] = []
    order_rows (x ∷ xs) = insert_row x (order_rows xs)

    -- `WITH due AS (…)`
    unfoldable pub due : ℕ → ℕ → List (CheckRow P) → List (CheckRow P)
    due now limit rows = take limit (order_rows (filter (is_due now) rows))

  -- `FROM due WHERE scheduled.rule_id = due.rule_id AND scheduled.key_id = due.key_id`
  unfoldable pub is_among : List (CheckRow P) → CheckRow P → Bool
  is_among [] row = false
  is_among (d ∷ ds) row = same_key d row || is_among ds row

  -- `SET leased_until_ms = $3`
  unfoldable pub lease_rows : ℕ → List (CheckRow P) → List (CheckRow P) → List (CheckRow P)
  lease_rows until ds rows =
      map (λ row. if is_among ds row then record row { leased_until_ms = some until } else row) rows

  unfoldable pub claim :
      (String → String → Bool)
      → (List (CheckRow P) → List (CheckRow P))
      → ℕ
      → ℕ
      → ℕ
      → List (CheckRow P)
      → List (ScheduledCheck P) × List (CheckRow P)
  unfolding due is_among lease_rows to_scheduled_check
  claim text_lt returned now limit lease_ms rows =
      let ds = due text_lt now limit rows in
      let claimed = map to_scheduled_check (returned (filter (is_among ds) rows)) in
      if leb limit 0
      then ([], rows)
      else (sort_by (λ check. check.run_at) claimed, lease_rows (now + lease_ms) ds rows)

  unfoldable pub remove : String → String → List (CheckRow P) → List (CheckRow P)
  remove rule_id key_id rows = filter (λ row. not (is_of rule_id key_id row)) rows

  unfoldable pub reschedule : String → String → ℕ → List (CheckRow P) → List (CheckRow P)
  reschedule rule_id key_id new_run_at rows =
      map
        (λ row.
          if is_of rule_id key_id row
          then record row { run_at_ms = new_run_at; leased_until_ms = none }
          else row)
        rows
