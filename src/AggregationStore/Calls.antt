-- ===== src/AggregationStore/Calls.antt =====
-- Sequences of calls of an aggregation store, each at the time that the clock reads, and the answers
-- that the in-memory store gives.
use test_assestment.Common.{ℕ, String, Option, some, List, [], ◌∷◌}
use test_assestment.AggregationStore
use test_assestment.AggregationStore.{AggregationEntry, Buckets, ◌>>=◌}

pub data Call {ℓ} (P : Type ℓ) : Type ℓ where
  append : String → String → String → AggregationEntry P → Call P
  list : String → String → String → ℕ → Call P
  count : String → String → String → ℕ → Call P
  append_and_count : String → String → String → AggregationEntry P → ℕ → Call P
  prune : ℕ → Call P

pub data Answer {ℓ} (P : Type ℓ) : Type ℓ where
  done : Answer P
  found : List (AggregationEntry P) → Answer P
  counted : ℕ → Answer P

module _ {ℓ} {P : Type ℓ} where
  unfoldable pub call : ℕ → Call P → Buckets P → Option (Answer P × Buckets P)
  call now (append r a k entry) st = do
    st' ← AggregationStore.append r a k entry st
    some (done, st')
  call now (list r a k window_ms) st = do
    (entries, st') ← AggregationStore.list r a k window_ms now st
    some (found entries, st')
  call now (count r a k window_ms) st = do
    (n, st') ← AggregationStore.count r a k window_ms now st
    some (counted n, st')
  call now (append_and_count r a k entry window_ms) st = do
    (n, st') ← AggregationStore.append_and_count r a k entry window_ms now st
    some (counted n, st')
  call now (prune older_than_ms) st = do
    st' ← AggregationStore.prune older_than_ms now st
    some (done, st')

  unfoldable pub calls : List (ℕ × Call P) → Buckets P → Option (List (Answer P) × Buckets P)
  unfolding call
  calls [] st = some ([], st)
  calls ((now, c) ∷ cs) st = do
    (answer, st') ← call now c st
    (answers, st'') ← calls cs st'
    some (answer ∷ answers, st'')
