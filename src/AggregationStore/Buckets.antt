-- ===== src/AggregationStore/Buckets.antt =====
-- Reads and writes of one bucket through the three levels of maps, and the invariant that every
-- bucket is sorted.
use test_assestment.Common.{
  String, ◌≡◌, refl, List, [], ◌==◌, get_or, eq_iff, if◌then◌else◌, ◌&&◌, arith, str_eq_refl,
  Bool-cases, Option-cases, inl, inr,
}
use test_assestment.JsMap.{Map, get, set}
use test_assestment.JsMap.Laws.{
  get-set, AllValues, get_or-AllValues, set-AllValues, set_self, set-set, get-set_self,
}
use test_assestment.AggregationStore.{
  AggregationEntry, Buckets, ensure, bucket, put_bucket, get_bucket,
}
use test_assestment.AggregationStore.Search.{IsSorted}

module _ {ℓ} {P : Type ℓ} where
  -- Every stored array is sorted by time.
  abbrev pub IsWf : Buckets P → Type ℓ
  IsWf st = AllValues (AllValues (AllValues IsSorted)) st

  -- The same entries stand in every bucket.
  abbrev pub SameBuckets : Buckets P → Buckets P → Type ℓ
  SameBuckets st st' = (r a k : String) → bucket r a k st' ≡ bucket r a k st

  pub bucket-IsSorted : (r a k : String) (st : Buckets P) → IsWf st → IsSorted (bucket r a k st)
  unfolding bucket
  bucket-IsSorted r a k st w =
      get_or-AllValues IsSorted k _ []
        (get_or-AllValues (AllValues IsSorted) a _ []
          (get_or-AllValues (AllValues (AllValues IsSorted)) r st [] w tt) tt)
        tt

  pub put_bucket-IsWf :
      (r a k : String) (entries : List (AggregationEntry P)) (st : Buckets P)
      → IsWf st
      → IsSorted entries
      → IsWf (put_bucket r a k entries st)
  unfolding put_bucket
  put_bucket-IsWf r a k entries st w s =
      let by_action = get_or-AllValues (AllValues (AllValues IsSorted)) r st [] w tt in
      let by_key = get_or-AllValues (AllValues IsSorted) a _ [] by_action tt in
      set-AllValues (AllValues (AllValues IsSorted)) r _ st w (
        set-AllValues (AllValues IsSorted) a _ _ by_action
          (set-AllValues IsSorted k entries _ by_key s))

  -- A write is read back in its own bucket, and in no other.
  pub bucket-put_bucket :
      (r a k r' a' k' : String) (entries : List (AggregationEntry P)) (st : Buckets P)
      → bucket r' a' k' (put_bucket r a k entries st)
        ≡ (if r == r' && (a == a' && k == k') then entries else bucket r' a' k' st)
  unfolding bucket put_bucket
  bucket-put_bucket r a k r' a' k' entries st = elim (Bool-cases (r == r')) [
    | inr b ↦ rw (get-set, b)
    | inl b ↦ elim (Bool-cases (a == a')) [
      | inr c ↦ rw (get-set, b, get-set, c, ← (eq_iff r r').0 b)
      | inl c ↦
          rw (get-set, b, get-set, c, get-set, ← (eq_iff r r').0 b, ← (eq_iff a a').0 c)
            (ground arith)
    ]
  ]

  pub get_bucket_lem : (r a k : String) (st : Buckets P) → (get_bucket r a k st).0 ≡ bucket r a k st
  unfolding get_bucket bucket
  get_bucket_lem r a k st = refl

  ensure-set :
      (k : String) (m : Map (List (AggregationEntry P)))
      → ensure k [] m ≡ set k (get_or (get k m) []) m
  ensure-set k m = elim (Option-cases (get k m)) [
    | inl e ↦ rw e (ground arith)
    | inr (v, e) ↦ rw e (ground (arith, set_self k v m e))
  ]

  -- A read creates the bucket that it misses, and an empty bucket reads as a missing one.
  pub get_bucket-put_bucket :
      (r a k : String) (st : Buckets P)
      → (get_bucket r a k st).1 ≡ put_bucket r a k (bucket r a k st) st
  unfolding get_bucket put_bucket bucket
  get_bucket-put_bucket r a k st = rw (← ensure-set k (get_or (get a (get_or (get r st) [])) []))

  pub put_bucket-put_bucket :
      (r a k : String) (u v : List (AggregationEntry P)) (st : Buckets P)
      → put_bucket r a k v (put_bucket r a k u st) ≡ put_bucket r a k v st
  unfolding put_bucket
  put_bucket-put_bucket r a k u v st = simp (get-set_self, set-set)

  pub bucket-put_bucket_self :
      (r a k : String) (u : List (AggregationEntry P)) (st : Buckets P)
      → bucket r a k (put_bucket r a k u st) ≡ u
  bucket-put_bucket_self r a k u st = simp (bucket-put_bucket, str_eq_refl)

  -- A read of one bucket leaves the entries of all, and the invariant.
  pub get_bucket-SameBuckets :
      (r a k : String) (st : Buckets P) → SameBuckets st (get_bucket r a k st).1
  get_bucket-SameBuckets r a k st r' a' k' =
      rw (get_bucket-put_bucket, bucket-put_bucket)
        (ground (arith, eq_iff r r', eq_iff a a', eq_iff k k'))

  pub get_bucket-IsWf : (r a k : String) (st : Buckets P) → IsWf st → IsWf (get_bucket r a k st).1
  get_bucket-IsWf r a k st w =
      rw get_bucket-put_bucket (put_bucket-IsWf r a k _ st w (bucket-IsSorted r a k st w))
