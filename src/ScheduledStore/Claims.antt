-- ===== src/ScheduledStore/Claims.antt =====
-- What a claim hands out: the due and unleased records, earliest first, up to the limit.
use mathlib.Core.List.{
  Perm, Mem, flatten, mem-cons_self, mem-cons_of_mem, mem-append_left, mem-append_right,
}
use mathlib.Core.List.Perm
use test_assestment.Common.{
  mem-filter_of_mem, take_of_length-le, ℕ, ◌≤◌, String, ◌≡◌, refl, true, some, List, [], ◌∷◌, ◌++◌,
  ◌==◌, get_or, map, arith, Option-cases, Bool-cases, inl, inr, length, min, drop, take-append-drop,
  length-take, All, All-mono, All-take, All-filter_self, sort_by, sort_by-perm, sort_by-All,
  IsSortedBy, sort_by-IsSortedBy, take-IsSortedBy, take-le-drop, length-sort_by,
}
use test_assestment.JsMap.{Map, get, values}
use test_assestment.ScheduledStore.{
  ScheduledCheck, Store, lease_key, find, claim, is_leased, candidates, is_candidate,
}

module _ {ℓ} {P : Type ℓ} where
  -- No lease on the record runs past `now`.
  abbrev pub IsFree : ℕ → Map ℕ → ScheduledCheck P → Type 0
  IsFree now leases rec =
      (until : ℕ) → get (lease_key rec.rule_id rec.key_id) leases ≡ some until → until ≤ now

  -- The record may be handed out.
  pub record IsDue (now : ℕ) (leases : Map ℕ) (rec : ScheduledCheck P) : Type 0 where
    pub due : rec.run_at ≤ now
    pub unleased : IsFree now leases rec

  pub is_candidate-IsDue :
      (now : ℕ) (leases : Map ℕ) (rec : ScheduledCheck P)
      → is_candidate now leases rec ≡ true
      → IsDue now leases rec
  unfolding is_candidate is_leased
  is_candidate-IsDue now leases rec h = record {
    due = ground arith;
    unleased = λ until e. ground (arith, e);
  }

  pub IsDue-is_candidate :
      (now : ℕ) (leases : Map ℕ) (rec : ScheduledCheck P)
      → IsDue now leases rec
      → is_candidate now leases rec ≡ true
  unfolding is_candidate is_leased
  IsDue-is_candidate now leases rec d =
      elim (Option-cases (get (lease_key rec.rule_id rec.key_id) leases)) [
        | inl e ↦ let due = d.due in rw e (ground arith)
        | inr (until, e) ↦ let due = d.due in let free = d.unleased until e in rw e (ground arith)
      ]

  -- A claim returns records that are due and whose lease has run out, earliest first, as many as
  -- the limit and the candidates allow; together with some records that are left they are the
  -- candidates in another order; no record that is left runs earlier than one that is claimed; and
  -- the filed records stay as they are.
  pub claim_lem :
      (now limit lease_ms : ℕ) (st : Store P)
      → (left : List (ScheduledCheck P)) × Perm
          ((claim now limit lease_ms st).0 ++ left)
          (candidates now st)
        × All (IsDue now st.leases) (claim now limit lease_ms st).0
        × IsSortedBy (λ rec. rec.run_at) (claim now limit lease_ms st).0
        × All (λ c. All (λ l. c.run_at ≤ l.run_at) left) (claim now limit lease_ms st).0
        × (length (claim now limit lease_ms st).0 ≡ min limit (length (candidates now st)))
        × ((claim now limit lease_ms st).1.records ≡ st.records)
  unfolding claim candidates
  claim_lem now limit lease_ms st =
      let time : ScheduledCheck P → ℕ = λ rec. rec.run_at in
      let found = candidates now st in
      let sorted = sort_by time found in
      (
        drop limit sorted,
        rw take-append-drop (sort_by-perm time found),
        All-take (IsDue now st.leases) limit sorted (
            sort_by-All time (IsDue now st.leases) found (
              All-mono (is_candidate-IsDue now st.leases) found
                (All-filter_self (is_candidate now st.leases) _))),
        take-IsSortedBy time limit sorted (sort_by-IsSortedBy time found),
        take-le-drop time limit sorted (sort_by-IsSortedBy time found),
        rw (length-take, length-sort_by),
        refl,
      )

  mem-values :
      (k : String) (m : Map (ScheduledCheck P)) {rec : ScheduledCheck P}
      → get k m ≡ some rec
      → Mem rec (values m)
  unfolding get
  mem-values k [] e = cc
  mem-values k ((j, v) ∷ m) {rec} e = elim (Bool-cases (j == k)) [
    | inl b ↦ let same : v ≡ rec = ground arith in rw same mem-cons_self
    | inr b ↦ mem-cons_of_mem v (mem-values k m (rw b at e))
  ]

  mem-flatten :
      (r k : String) (m : Map (Map (ScheduledCheck P))) {rec : ScheduledCheck P}
      → get k (get_or (get r m) []) ≡ some rec
      → Mem rec (flatten (map values (values m)))
  unfolding get flatten
  mem-flatten r k [] e = cc
  mem-flatten r k ((j, n) ∷ m) {rec} e = elim (Bool-cases (j == r)) [
    | inl b ↦ mem-append_left _ (mem-values k n (rw b at e))
    | inr b ↦ mem-append_right _ (mem-flatten r k m (rw b at e))
  ]

  -- Every filed record that may be handed out is among the candidates.
  mem-candidates :
      (now : ℕ) (st : Store P) (r k : String) {rec : ScheduledCheck P}
      → find r k st ≡ some rec
      → IsDue now st.leases rec
      → Mem rec (candidates now st)
  unfolding candidates find
  mem-candidates now st r k {rec} e d =
      mem-filter_of_mem (is_candidate now st.leases) _ (mem-flatten r k st.records e)
        (IsDue-is_candidate now st.leases rec d)

  -- A claim whose limit is at least the number of candidates hands out every filed record that is
  -- due and not leased.
  pub claim_complete :
      (now limit lease_ms : ℕ) (st : Store P) (r k : String) (rec : ScheduledCheck P)
      → length (candidates now st) ≤ limit
      → find r k st ≡ some rec
      → IsDue now st.leases rec
      → Mem rec (claim now limit lease_ms st).0
  unfolding claim
  claim_complete now limit lease_ms st r k rec enough e d =
      let time : ScheduledCheck P → ℕ = λ c. c.run_at in
      let found = candidates now st in
      rw (take_of_length-le limit (sort_by time found) (rw length-sort_by enough))
        ((Perm.mem_iff (sort_by-perm time found)).1 (mem-candidates now st r k e d))
