-- ===== src/ScheduledStore/Records.antt =====
-- What each operation leaves filed under every rule and key.
use test_assestment.Common.{
  ℕ, String, ◌≡◌, Option, none, some, [], ◌==◌, get_or, if◌then◌else◌, ◌&&◌, arith, Option-cases,
  Bool-cases, inl, inr, eq_iff,
}
use mathlib.Core.Option
use test_assestment.JsMap.{Map, get, delete}
use test_assestment.JsMap.Laws.{get-set, get-delete}
use test_assestment.ScheduledStore.{
  ScheduledCheck, Store, lease_key, find, file, enqueue, unfile, remove, reschedule,
}

module _ {ℓ} {P : Type ℓ} where
  -- `find` over the records alone.
  abbrev filed : String → String → Map (Map (ScheduledCheck P)) → Option (ScheduledCheck P)
  filed r k m = get k (get_or (get r m) [])

  filed-file :
      (rec : ScheduledCheck P) (r k r' k' : String) (m : Map (Map (ScheduledCheck P)))
      → filed r' k' (file rec r k m) ≡ (if r == r' && k == k' then some rec else filed r' k' m)
  filed-file rec r k r' k' m = elim (Bool-cases (r == r')) [
    | inl b ↦ rw (get-set, b, get-set, ← (eq_iff r r').0 b)
    | inr b ↦ rw (get-set, b)
  ]

  filed-unfile :
      (r k r' k' : String) (m : Map (Map (ScheduledCheck P)))
      → filed r' k' (unfile r k m) ≡ (if r == r' && k == k' then none else filed r' k' m)
  unfolding get
  filed-unfile r k r' k' m = elim (Option-cases (get r m)) [
    | inl e ↦ elim (Bool-cases (r == r')) [
      | inl b ↦ rw (e, unfile, b, ← (eq_iff r r').0 b, e) (ground arith)
      | inr b ↦ rw (e, unfile, b)
    ]
    | inr (n, e) ↦ elim (Bool-cases (r == r')) [
      | inl b ↦ rw (e, unfile, get-set, b, get-delete, ← (eq_iff r r').0 b, e)
      | inr b ↦ rw (e, unfile, get-set, b)
    ]
  ]

  -- After enqueue the record filed under its rule and key is the new one, and the record under
  -- every other rule and key is the one that was there.
  pub find-enqueue :
      (r k r' k' : String) (run_at : ℕ) (payload : P) (scheduled_at : ℕ) (deadline : Option ℕ)
      (st : Store P)
      → find r' k' (enqueue r k run_at payload scheduled_at deadline st) ≡ (
          if r == r' && k == k'
          then some (record {
            rule_id = r;
            key_id = k;
            run_at = run_at;
            scheduled_at = scheduled_at;
            deadline = deadline;
            payload = payload;
          })
          else find r' k' st)
  unfolding find enqueue
  find-enqueue r k r' k' run_at payload scheduled_at deadline st = filed-file _ r k r' k' st.records

  -- After remove nothing is filed under the rule and key, and the record under every other rule
  -- and key is the one that was there.
  pub find-remove :
      (r k r' k' : String) (st : Store P)
      → find r' k' (remove r k st) ≡ (if r == r' && k == k' then none else find r' k' st)
  unfolding find remove
  find-remove r k r' k' st = filed-unfile r k r' k' st.records

  -- The record at another time, with the rest as it was.
  abbrev pub moved : ℕ → ScheduledCheck P → ScheduledCheck P
  moved run_at rec = record rec { run_at = run_at }

  -- Nothing happens where no record is filed.
  pub reschedule-none :
      (r k : String) (new_run_at : ℕ) (st : Store P)
      → find r k st ≡ none
      → reschedule r k new_run_at st ≡ st
  unfolding find reschedule
  reschedule-none r k new_run_at st e = rw (e, reschedule)

  pub reschedule-some :
      (r k : String) (new_run_at : ℕ) (st : Store P) (rec : ScheduledCheck P)
      → find r k st ≡ some rec
      → reschedule r k new_run_at st ≡ record {
        records = file (moved new_run_at rec) r k st.records;
        leases = delete (lease_key r k) st.leases;
      }
  unfolding find reschedule
  reschedule-some r k new_run_at st rec e = rw (e, reschedule)

  -- After reschedule a record filed under the rule and key has the new time and is otherwise
  -- unchanged, nothing is filed there if nothing was, and the record under every other rule and
  -- key is the one that was there.
  pub find-reschedule :
      (r k r' k' : String) (new_run_at : ℕ) (st : Store P)
      → find r' k' (reschedule r k new_run_at st) ≡ (
          if r == r' && k == k' then Option.map (moved new_run_at) (find r k st) else find r' k' st)
  find-reschedule r k r' k' new_run_at st = elim (Option-cases (find r k st)) [
    | inl e ↦ elim (Bool-cases (r == r' && k == k')) [
      | inl b ↦ rw (
        reschedule-none r k new_run_at st e,
        b,
        e,
        ← (eq_iff r r').0 (ground arith),
        ← (eq_iff k k').0 (ground arith),
        e,
      )
      | inr b ↦ rw (reschedule-none r k new_run_at st e, b)
    ]
    | inr (rec, e) ↦
        rw (reschedule-some r k new_run_at st rec e, e)
          (unfold find in filed-file (moved new_run_at rec) r k r' k' st.records)
  ]
