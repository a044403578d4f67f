-- ===== src/PostgresStorage/Checks/Lookup.antt =====
-- What each statement leaves under every rule and key.
use test_assestment.Common.{
  ℕ, String, ◌≡◌, refl, ◌&&◌, Option, none, some, List, [], ◌∷◌, ◌==◌, if◌then◌else◌, arith, eq_iff,
}
use mathlib.Core.Option
use test_assestment.ScheduledStore.{ScheduledCheck}
use test_assestment.ScheduledStore.Records.{moved}
use test_assestment.PostgresStorage.Checks.{
  CheckRow, is_of, same_key, to_scheduled_check, upsert, lease_rows, remove, reschedule,
}

module _ {ℓ} {P : Type ℓ} where
  -- The check that the table has under a rule and a key.
  unfoldable pub lookup : String → String → List (CheckRow P) → Option (ScheduledCheck P)
  lookup r k [] = none
  lookup r k (row ∷ rows) = if is_of r k row then some (to_scheduled_check row) else lookup r k rows

  pub lookup-upsert :
      (r k : String) (new : CheckRow P) (rows : List (CheckRow P))
      → lookup r k (upsert new rows) ≡ (
          if new.rule_id == r && new.key_id == k
          then some (to_scheduled_check new)
          else lookup r k rows)
  unfolding lookup upsert same_key
  lookup-upsert r k new [] = refl
  lookup-upsert r k new (row ∷ rows) = ground (
    arith,
    lookup-upsert r k new rows,
    eq_iff new.rule_id r,
    eq_iff new.key_id k,
    eq_iff row.rule_id r,
    eq_iff row.key_id k,
    eq_iff row.rule_id new.rule_id,
    eq_iff row.key_id new.key_id,
  )

  pub lookup-remove :
      (r k r' k' : String) (rows : List (CheckRow P))
      → lookup r' k' (remove r k rows) ≡ (if r == r' && k == k' then none else lookup r' k' rows)
  unfolding lookup remove
  lookup-remove r k r' k' [] = ground arith
  lookup-remove r k r' k' (row ∷ rows) = ground (
    arith,
    lookup-remove r k r' k' rows,
    eq_iff r r',
    eq_iff k k',
    eq_iff row.rule_id r,
    eq_iff row.key_id k,
    eq_iff row.rule_id r',
    eq_iff row.key_id k',
  )

  pub lookup-reschedule :
      (r k r' k' : String) (new_run_at : ℕ) (rows : List (CheckRow P))
      → lookup r' k' (reschedule r k new_run_at rows) ≡ (
          if r == r' && k == k'
          then Option.map (moved new_run_at) (lookup r k rows)
          else lookup r' k' rows)
  unfolding lookup reschedule to_scheduled_check
  lookup-reschedule r k r' k' new_run_at [] = ground arith
  lookup-reschedule r k r' k' new_run_at (row ∷ rows) = ground (
    arith,
    lookup-reschedule r k r' k' new_run_at rows,
    eq_iff r r',
    eq_iff k k',
    eq_iff row.rule_id r,
    eq_iff row.key_id k,
    eq_iff row.rule_id r',
    eq_iff row.key_id k',
  )

  pub lookup-lease_rows :
      (r k : String) (until : ℕ) (ds rows : List (CheckRow P))
      → lookup r k (lease_rows until ds rows) ≡ lookup r k rows
  unfolding lookup lease_rows to_scheduled_check
  lookup-lease_rows r k until ds [] = refl
  lookup-lease_rows r k until ds (row ∷ rows) = ground (arith, lookup-lease_rows r k until ds rows)

-- A check with the payload that the table gives back.
abbrev pub stored_check {ℓ} : {P : Type ℓ} → (P → P) → ScheduledCheck P → ScheduledCheck P
stored_check stored check = record check { payload = stored check.payload }
