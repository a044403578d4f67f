-- ===== src/PostgresStorage/Checks/Keys.antt =====
-- The calls keep the primary key of the table.
use test_assestment.Common.{
  ℕ, ◌+◌, String, refl, Bool, not, none, some, List, [], ◌∷◌, leb, if◌then◌else◌, arith, Bool-cases,
  inl, inr,
}
use test_assestment.ScheduledStore.Calls.{Call}
use test_assestment.PostgresStorage.Checks.{
  CheckRow, is_of, same_key, enqueue, is_among, claim, remove, reschedule, due,
}
use test_assestment.PostgresStorage.Checks.Rows.{
  IsKeyed, is_keyed, filter-IsKeyed, map-IsKeyed, upsert-IsKeyed, KeepsKey, same_key_refl,
}
use test_assestment.PostgresStorage.Checks.Calls.{call, calls}

module _ {ℓ} {P : Type ℓ} (stored : P → P) (text_lt : String → String → Bool)
    (returned : List (CheckRow P) → List (CheckRow P)) where
  lease-KeepsKey :
      (until : ℕ) (ds : List (CheckRow P))
      → KeepsKey
          (λ row. if is_among ds row then record row { leased_until_ms = some until } else row)
  unfolding same_key
  lease-KeepsKey until ds row = ground (arith, same_key_refl row)

  move-KeepsKey :
      (r k : String) (new_run_at : ℕ)
      → KeepsKey {P = P} (λ row.
        if is_of r k row
        then record row { run_at_ms = new_run_at; leased_until_ms = none }
        else row)
  unfolding same_key
  move-KeepsKey r k new_run_at row = ground (arith, same_key_refl row)

  claim-IsKeyed :
      (now limit lease_ms : ℕ) (rows : List (CheckRow P))
      → IsKeyed rows
      → IsKeyed (claim text_lt returned now limit lease_ms rows).1
  unfolding claim
  claim-IsKeyed now limit lease_ms rows h = elim (Bool-cases (leb limit 0)) [
    | inl b ↦ rw b h
    | inr b ↦
        rw b (map-IsKeyed _ rows (lease-KeepsKey (now + lease_ms) (due text_lt now limit rows)) h)
  ]

  call-IsKeyed :
      (c : Call P) (rows : List (CheckRow P))
      → IsKeyed rows
      → IsKeyed (call stored text_lt returned c rows)
  unfolding call enqueue remove reschedule
  call-IsKeyed (Call.enqueue r k run_at payload scheduled_at deadline) rows h =
      upsert-IsKeyed _ rows h
  call-IsKeyed (Call.claim now limit lease_ms) rows h = claim-IsKeyed now limit lease_ms rows h
  call-IsKeyed (Call.remove r k) rows h = filter-IsKeyed (λ row. not (is_of r k row)) rows h
  call-IsKeyed (Call.reschedule r k new_run_at) rows h =
      map-IsKeyed _ rows (move-KeepsKey r k new_run_at) h

  calls-IsKeyed_from :
      (cs : List (Call P)) (rows : List (CheckRow P))
      → IsKeyed rows
      → IsKeyed (calls stored text_lt returned cs rows)
  unfolding calls
  calls-IsKeyed_from [] rows h = h
  calls-IsKeyed_from (c ∷ cs) rows h =
      calls-IsKeyed_from cs (call stored text_lt returned c rows) (call-IsKeyed c rows h)

  -- After any sequence of enqueues, claims, removals and reschedules of an empty table, no two of
  -- its rows have the same rule and key.
  pub calls-IsKeyed : (cs : List (Call P)) → IsKeyed (calls stored text_lt returned cs [])
  unfolding is_keyed
  calls-IsKeyed cs = calls-IsKeyed_from cs [] refl
