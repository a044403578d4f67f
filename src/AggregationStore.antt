-- ===== src/AggregationStore.antt =====
-- engine/src/utility/aggregation-store.ts and its interface in engine/src/public/stores.ts: the
-- in-memory windows of aggregated actions. Times and windows are native numbers, so `now - window`
-- stops at 0; no entry has a time below 0, so every comparison with it comes out the same.
pub mod Search
pub mod Windows
pub mod Buckets
pub mod Effects
pub mod Pruning
pub mod Calls
mod Tests
use test_assestment.Common.{
  ℕ, zero, suc, ◌+◌, ◌-◌, ◌/◌, String, Bool, true, false, Option, none, some, get_or, List, [], ◌∷◌,
  ◌++◌, ltb, leb, if◌then◌else◌, length, get_elem?, take, drop, slice, nat_eq,
}
use test_assestment.JsMap.{Map, get, set}

pub record AggregationEntry {ℓ} (P : Type ℓ) : Type ℓ where
  pub at : ℕ
  pub delivery_id : String
  pub payload : P

infixl 5 ◌>>=◌
abbrev pub ◌>>=◌ {ℓ κ} : {A : Type ℓ} {B : Type κ} → Option A → (A → Option B) → Option B
none >>= f = none
some a >>= f = f a

module _ {ℓ} {P : Type ℓ} where
  -- The loop that the three searches share: the first index at which `before` fails. `none` is a
  -- read outside the array, or no fuel.
  unfoldable pub search_from :
      (AggregationEntry P → Bool) → ℕ → ℕ → ℕ → List (AggregationEntry P) → Option ℕ
  search_from before zero lo hi arr = none
  search_from before (suc fuel) lo hi arr =
      let mid = (lo + hi) / 2 in
      let right = search_from before fuel (mid + 1) hi arr in
      let left = search_from before fuel lo mid arr in
      if ltb lo hi
      then (elim (get_elem? arr mid) [ none ↦ none | some e ↦ if before e then right else left ])
      else some lo

  unfoldable pub lower_bound : List (AggregationEntry P) → ℕ → Option ℕ
  lower_bound arr target = search_from (λ e. ltb e.at target) (suc (length arr)) 0 (length arr) arr

  unfoldable pub upper_bound : List (AggregationEntry P) → ℕ → Option ℕ
  upper_bound arr target = search_from (λ e. leb e.at target) (suc (length arr)) 0 (length arr) arr

  -- `arr.splice(lo, 0, entry)`
  abbrev pub splice_in :
      ℕ → AggregationEntry P → List (AggregationEntry P) → List (AggregationEntry P)
  splice_in lo entry arr = take lo arr ++ entry ∷ drop lo arr

  unfoldable pub insert_sorted :
      List (AggregationEntry P) → AggregationEntry P → Option (List (AggregationEntry P))
  insert_sorted arr entry = do
    lo ← search_from (λ e. leb e.at entry.at) (suc (length arr)) 0 (length arr) arr
    some (splice_in lo entry arr)

-- ruleId → actionId → keyId → entries
abbrev pub Buckets {ℓ} : Type ℓ → Type ℓ
Buckets P = Map (Map (Map (List (AggregationEntry P))))

-- `if (!m.has(k)) m.set(k, v)`
abbrev pub ensure {ℓ} : {V : Type ℓ} → String → V → Map V → Map V
ensure k v m = elim (get k m) [ none ↦ set k v m | some w ↦ m ]

module _ {ℓ} {P : Type ℓ} (rule_id action_id key_id : String) where
  -- What stands in a bucket; a bucket that is not there yet reads as empty.
  unfoldable pub bucket : Buckets P → List (AggregationEntry P)
  bucket st = get_or (get key_id (get_or (get action_id (get_or (get rule_id st) [])) [])) []

  -- The arrays and the maps are shared with the maps that hold them, so a write to an array is
  -- a write to the whole structure.
  unfoldable pub put_bucket : List (AggregationEntry P) → Buckets P → Buckets P
  put_bucket entries st =
      let by_action = get_or (get rule_id st) [] in
      let by_key = get_or (get action_id by_action) [] in
      set rule_id (set action_id (set key_id entries by_key) by_action) st

  -- The bucket, with the maps and the array that were created for it on the way.
  unfoldable pub get_bucket : Buckets P → List (AggregationEntry P) × Buckets P
  unfolding bucket put_bucket
  get_bucket st =
      let by_action = get_or (get rule_id st) [] in
      let by_key = get_or (get action_id by_action) [] in
      let entries = get_or (get key_id by_key) [] in
      (entries, set rule_id (set action_id (ensure key_id [] by_key) by_action) st)

  unfoldable pub append : AggregationEntry P → Buckets P → Option (Buckets P)
  append entry st = do
    let (entries, st') = get_bucket st
    entries' ← insert_sorted entries entry
    some (put_bucket entries' st')

  unfoldable pub list : ℕ → ℕ → Buckets P → Option (List (AggregationEntry P) × Buckets P)
  list window_ms now st = do
    let (entries, st') = get_bucket st
    let cutoff = now - window_ms
    start ← lower_bound entries cutoff
    end ← upper_bound entries now
    some (slice start end entries, st')

  unfoldable pub count : ℕ → ℕ → Buckets P → Option (ℕ × Buckets P)
  count window_ms now st = do
    let (entries, st') = get_bucket st
    let cutoff = now - window_ms
    end ← upper_bound entries now
    start ← lower_bound entries cutoff
    some (end - start, st')

  unfoldable pub append_and_count : AggregationEntry P → ℕ → ℕ → Buckets P → Option (ℕ × Buckets P)
  append_and_count entry window_ms now st = do
    let (entries, st') = get_bucket st
    entries' ← insert_sorted entries entry
    let st'' = put_bucket entries' st'
    let cutoff = now - window_ms
    end ← upper_bound entries' now
    start ← lower_bound entries' cutoff
    some (end - start, st'')

module _ {ℓ κ} {V : Type ℓ} {W : Type κ} (f : V → Option W) where
  -- A loop over the entries of a map that writes each value again, at its own key.
  unfoldable pub each_value : Map V → Option (Map W)
  each_value [] = some []
  each_value ((k, v) ∷ m) = do w ← f v; rest ← each_value m; some ((k, w) ∷ rest)

module _ {ℓ} {P : Type ℓ} (cutoff : ℕ) where
  unfoldable pub prune_entries : List (AggregationEntry P) → Option (List (AggregationEntry P))
  prune_entries entries = do
    start ← lower_bound entries cutoff
    some (if nat_eq start 0 then entries else drop start entries)

unfoldable pub prune {ℓ} : {P : Type ℓ} → ℕ → ℕ → Buckets P → Option (Buckets P)
unfolding each_value prune_entries
prune older_than_ms now = each_value (each_value (each_value (prune_entries (now - older_than_ms))))
