-- ===== src/PostgresStorage/Checks/Refinement.antt =====
-- After the same calls, the table and the in-memory store have the same check filed under every rule
-- and key, up to what a payload is read back as.
use test_assestment.Common.{
  ℕ, ◌+◌, String, ◌≡◌, refl, Bool, ◌&&◌, Option, none, some, List, [], ◌∷◌, ◌==◌, leb, Bool-cases,
  inl, inr,
}
use mathlib.Core.Option
use test_assestment.JsMap
use test_assestment.ScheduledStore
use test_assestment.ScheduledStore.{ScheduledCheck, Store, find, create}
use test_assestment.ScheduledStore.Claims.{claim_lem}
use test_assestment.ScheduledStore.Records.{find-enqueue, find-remove, find-reschedule, moved}
use test_assestment.ScheduledStore.Calls
use test_assestment.ScheduledStore.Calls.{Call}
use test_assestment.PostgresStorage.Checks.{CheckRow, to_scheduled_check, enqueue, claim, due}
use test_assestment.PostgresStorage.Checks.Lookup.{
  lookup, lookup-upsert, lookup-remove, lookup-reschedule, lookup-lease_rows, stored_check,
}
use test_assestment.PostgresStorage.Checks.Calls.{call, calls}

module _ {ℓ} {P : Type ℓ} (stored : P → P) (text_lt : String → String → Bool)
    (returned : List (CheckRow P) → List (CheckRow P)) where
  -- The store and the table have the same checks filed.
  abbrev Refines : Store P → List (CheckRow P) → Type ℓ
  Refines st rows =
      (r k : String) → lookup r k rows ≡ Option.map (stored_check stored) (find r k st)

  lookup-claim :
      (r k : String) (now limit lease_ms : ℕ) (rows : List (CheckRow P))
      → lookup r k (claim text_lt returned now limit lease_ms rows).1 ≡ lookup r k rows
  unfolding claim
  lookup-claim r k now limit lease_ms rows = elim (Bool-cases (leb limit 0)) [
    | inl b ↦ rw b
    | inr b ↦ rw b (lookup-lease_rows r k (now + lease_ms) (due text_lt now limit rows) rows)
  ]

  find-claim :
      (r k : String) (now limit lease_ms : ℕ) (st : Store P)
      → find r k (ScheduledStore.claim now limit lease_ms st).1 ≡ find r k st
  unfolding find
  find-claim r k now limit lease_ms st =
      let (_, _, _, _, _, _, same) = claim_lem now limit lease_ms st in rw same

  map_comm :
      (new_run_at : ℕ) (o : Option (ScheduledCheck P))
      → Option.map (moved new_run_at) (Option.map (stored_check stored) o)
        ≡ Option.map (stored_check stored) (Option.map (moved new_run_at) o)
  map_comm n none = refl
  map_comm n (some c) = refl

  call-Refines :
      (c : Call P) (st : Store P) (rows : List (CheckRow P))
      → Refines st rows
      → Refines (Calls.call c st) (call stored text_lt returned c rows)
  unfolding call Calls.call enqueue to_scheduled_check
  call-Refines (Call.enqueue r k run_at payload scheduled_at deadline) st rows h r' k' =
      elim (Bool-cases (r == r' && k == k')) [
        | inl b ↦ rw (lookup-upsert, find-enqueue, b)
        | inr b ↦ rw (lookup-upsert, find-enqueue, b) (h r' k')
      ]
  call-Refines (Call.claim now limit lease_ms) st rows h r' k' =
      rw (lookup-claim r' k' now limit lease_ms rows, find-claim r' k' now limit lease_ms st)
        (h r' k')
  call-Refines (Call.remove r k) st rows h r' k' = elim (Bool-cases (r == r' && k == k')) [
    | inl b ↦ rw (lookup-remove, find-remove, b)
    | inr b ↦ rw (lookup-remove, find-remove, b) (h r' k')
  ]
  call-Refines (Call.reschedule r k new_run_at) st rows h r' k' =
      elim (Bool-cases (r == r' && k == k')) [
        | inl b ↦
            rw (lookup-reschedule, find-reschedule, b, h r k) (map_comm new_run_at (find r k st))
        | inr b ↦ rw (lookup-reschedule, find-reschedule, b) (h r' k')
      ]

  calls-Refines :
      (cs : List (Call P)) (st : Store P) (rows : List (CheckRow P))
      → Refines st rows
      → Refines (Calls.calls cs st) (calls stored text_lt returned cs rows)
  unfolding calls Calls.calls
  calls-Refines [] st rows h = h
  calls-Refines (c ∷ cs) st rows h =
      calls-Refines cs (Calls.call c st) (call stored text_lt returned c rows)
        (call-Refines c st rows h)

  -- After any sequence of enqueues, claims, removals and reschedules, made of a new in-memory
  -- store and of an empty table, the table has under every rule and key the check that the store
  -- has filed there, with its payload as the database reads it back, and none where the store has
  -- none.
  pub lookup-calls :
      (cs : List (Call P)) (r k : String)
      → lookup r k (calls stored text_lt returned cs [])
        ≡ Option.map (stored_check stored) (find r k (Calls.calls cs create))
  unfolding lookup find create JsMap.get
  lookup-calls cs r k = calls-Refines cs create [] (λ r' k'. refl) r k
