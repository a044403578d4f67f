-- ===== src/PostgresStorage/Entries.antt =====
-- class PostgresAggregationStore of demo/src/postgres-storage.ts over the table
-- demo_aggregation_entries, whose rows are kept in the order of their insertion.
pub mod Transaction
pub mod Held
pub mod Calls
pub mod Refinement
pub mod Refused
mod Tests
use test_assestment.Common.{
  ℕ, ◌+◌, ◌-◌, String, Bool, ◌&&◌, Option, none, some, List, [], ◌∷◌, ◌++◌, ◌==◌, map, leb, ltb,
  not, length, filter, sort_by, Result, ok, throw,
}
use test_assestment.AggregationStore.{AggregationEntry}

pub record EntryRow {ℓ} (P : Type ℓ) : Type ℓ where
  pub id : ℕ
  pub rule_id : String
  pub action_id : String
  pub key_id : String
  pub at_ms : ℕ
  pub delivery_id : String
  pub payload : P

pub record EntryTable {ℓ} (P : Type ℓ) : Type ℓ where
  pub rows : List (EntryRow P)
  -- `GENERATED BY DEFAULT AS IDENTITY`
  pub next_id : ℕ

module _ {ℓ} {P : Type ℓ} where
  -- `CREATE TABLE IF NOT EXISTS` on an empty database
  unfoldable pub init : EntryTable P
  init = record { rows = []; next_id = 1 }

  unfoldable pub to_aggregation_entry : EntryRow P → AggregationEntry P
  to_aggregation_entry row = record {
    at = row.at_ms;
    delivery_id = row.delivery_id;
    payload = row.payload;
  }

  -- `ORDER BY at_ms ASC, id ASC`
  unfoldable pub order_by_time : List (EntryRow P) → List (EntryRow P)
  order_by_time rows = sort_by (λ row. row.at_ms) (sort_by (λ row. row.id) rows)

  -- `rule_id = $1 AND action_id = $2 AND key_id = $3`
  abbrev pub is_of : String → String → String → EntryRow P → Bool
  is_of rule_id action_id key_id row =
      row.rule_id == rule_id && (row.action_id == action_id && row.key_id == key_id)

  -- `at_ms >= $4 AND at_ms <= $5`
  abbrev pub is_within : ℕ → ℕ → EntryRow P → Bool
  is_within from now row = leb from row.at_ms && leb row.at_ms now

  unfoldable pub matching : String → String → String → ℕ → ℕ → EntryTable P → List (EntryRow P)
  matching rule_id action_id key_id window_ms now table =
      filter (λ row. is_of rule_id action_id key_id row && is_within (now - window_ms) now row)
        table.rows

  unfoldable pub list : String → String → String → ℕ → ℕ → EntryTable P → List (AggregationEntry P)
  unfolding to_aggregation_entry order_by_time matching
  list rule_id action_id key_id window_ms now table =
      map to_aggregation_entry
        (order_by_time (matching rule_id action_id key_id window_ms now table))

  -- `SELECT COUNT(*)`
  unfoldable pub count_with : String → String → String → ℕ → ℕ → EntryTable P → ℕ
  unfolding matching
  count_with rule_id action_id key_id window_ms now table =
      length (matching rule_id action_id key_id window_ms now table)

  unfoldable pub prune : ℕ → ℕ → EntryTable P → EntryTable P
  prune older_than_ms now table = record table {
    rows = filter (λ row. not (ltb row.at_ms (now - older_than_ms))) table.rows;
  }

  -- What a payload is read back as, once `toJson` has written it to a `jsonb` column.
  module _ (stored : P → P) where
    unfoldable pub append :
        String → String → String → AggregationEntry P → EntryTable P → EntryTable P
    append rule_id action_id key_id entry table = record {
      rows =
          table.rows
          ++ record {
            id = table.next_id;
            rule_id = rule_id;
            action_id = action_id;
            key_id = key_id;
            at_ms = entry.at;
            delivery_id = entry.delivery_id;
            payload = stored entry.payload;
          }
            ∷ [];
      next_id = table.next_id + 1;
    }
