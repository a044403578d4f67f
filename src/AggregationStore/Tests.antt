-- ===== src/AggregationStore/Tests.antt =====
-- Runs of the store, and the theorems at them.
use test_assestment.Common.{ℕ, ◌≡◌, refl, some, [], ◌∷◌, arith, filter}
use test_assestment.JsMap.{get, set}
use test_assestment.AggregationStore.{
  AggregationEntry, Buckets, search_from, lower_bound, upper_bound, insert_sorted, bucket,
  put_bucket, get_bucket, append, list, count, append_and_count, prune, ◌>>=◌,
}
use test_assestment.AggregationStore.Windows.{in_window}
use test_assestment.AggregationStore.Buckets.{IsWf, SameBuckets}
use test_assestment.AggregationStore.Effects
use test_assestment.AggregationStore.Pruning

abbrev entry : ℕ → AggregationEntry ℕ
entry t = record { at = t; delivery_id = "d"; payload = t }

-- One bucket with runs at 10, 20 and 30.
abbrev runs : Buckets ℕ
runs = ("flaky", ("record", ("pr-1", entry 10 ∷ entry 20 ∷ entry 30 ∷ []) ∷ []) ∷ []) ∷ []

runs-IsWf : IsWf runs
runs-IsWf = omega arith

store : Unit {0}
unfolding append list count append_and_count prune insert_sorted lower_bound upper_bound search_from
    get set bucket get_bucket put_bucket
store = tt

list_inclusive : list "flaky" "record" "pr-1" 10 30 runs ≡ some (entry 20 ∷ entry 30 ∷ [], runs)
unfolding store
list_inclusive = refl

append_out_of_order :
    append "flaky" "record" "pr-1" (entry 15) runs
    ≡ some (
        ("flaky", ("record", ("pr-1", entry 10 ∷ entry 15 ∷ entry 20 ∷ entry 30 ∷ []) ∷ []) ∷ [])
        ∷ [])
unfolding store
append_out_of_order = refl

list_lem_example :
    (st : Buckets ℕ) × (list "flaky" "record" "pr-1" 10 30 runs
      ≡ some (filter (in_window 20 30) (bucket "flaky" "record" "pr-1" runs), st))
    × IsWf st
    × SameBuckets runs st
list_lem_example = Effects.list_lem "flaky" "record" "pr-1" runs runs-IsWf 10 30

abbrev recent : Buckets ℕ
recent = ("flaky", ("record", ("pr-1", entry 20 ∷ entry 30 ∷ []) ∷ []) ∷ []) ∷ []

prune_keeps_list_example :
    (list "flaky" "record" "pr-1" 12 31 recent >>= λ found. some found.0)
    ≡ (list "flaky" "record" "pr-1" 12 31 runs >>= λ found. some found.0)
unfolding store
prune_keeps_list_example =
    Pruning.prune_keeps_list "flaky" "record" "pr-1" 15 12 30 31 runs recent runs-IsWf (omega arith)
      (omega arith) refl
