-- ===== src/AggregationStore/Effects.antt =====
-- What each operation of the store returns, what it leaves in every bucket, and that it keeps the
-- buckets sorted. No operation fails: the searches stay inside the arrays.
use test_assestment.Common.{
  ℕ, ◌-◌, String, ◌≡◌, some, List, ◌==◌, if◌then◌else◌, ◌&&◌, arith, length, filter,
}
use test_assestment.AggregationStore.{
  AggregationEntry, Buckets, bucket, put_bucket, append, list, count, append_and_count, ◌>>=◌,
}
use test_assestment.AggregationStore.Search.{lower_bound_lem, upper_bound_lem}
use test_assestment.AggregationStore.Windows.{
  in_window, slice-window, count-in_window, inserted, insert_sorted_lem, inserted-IsSorted,
}
use test_assestment.AggregationStore.Buckets.{
  IsWf, SameBuckets, bucket-IsSorted, put_bucket-IsWf, bucket-put_bucket, get_bucket_lem,
  put_bucket-put_bucket, bucket-put_bucket_self, get_bucket-put_bucket, get_bucket-SameBuckets,
  get_bucket-IsWf,
}

module _ {ℓ} {P : Type ℓ} (rule_id action_id key_id : String) (st : Buckets P) (w : IsWf st) where
  here : List (AggregationEntry P)
  here = bucket rule_id action_id key_id st

  append-put_bucket :
      (entry : AggregationEntry P)
      → append rule_id action_id key_id entry st
        ≡ some (
            put_bucket rule_id action_id key_id
              (inserted (bucket rule_id action_id key_id st) entry)
              st)
  unfolding append
  append-put_bucket entry =
      let s = bucket-IsSorted rule_id action_id key_id st w in
      rw (get_bucket_lem, insert_sorted_lem _ entry s, get_bucket-put_bucket, put_bucket-put_bucket)

  -- For a store whose buckets are sorted, append succeeds, keeps every bucket sorted, puts the
  -- entry into its own bucket behind all entries of its time or earlier and before all later ones,
  -- and leaves every other bucket as it was.
  pub append_lem :
      (entry : AggregationEntry P)
      → (st' : Buckets P) × (append rule_id action_id key_id entry st ≡ some st')
        × IsWf st'
        × ((r a k : String)
            → bucket r a k st' ≡ (
                if rule_id == r && (action_id == a && key_id == k)
                then inserted (bucket rule_id action_id key_id st) entry
                else bucket r a k st))
  append_lem entry =
      let s = bucket-IsSorted rule_id action_id key_id st w in
      (
        _,
        append-put_bucket entry,
        put_bucket-IsWf rule_id action_id key_id _ st w (inserted-IsSorted _ entry s),
        λ r a k. bucket-put_bucket rule_id action_id key_id r a k _ st,
      )

  -- For a store whose buckets are sorted, list succeeds and returns exactly the entries of the
  -- bucket with now - window ≤ at ≤ now, in order, keeps every bucket sorted, and changes the
  -- entries of no bucket.
  pub list_lem :
      (window_ms now : ℕ)
      → (st' : Buckets P) × (list rule_id action_id key_id window_ms now st
          ≡ some
              (filter (in_window (now - window_ms) now) (bucket rule_id action_id key_id st), st'))
        × IsWf st'
        × SameBuckets st st'
  unfolding list
  list_lem window_ms now =
      let s = bucket-IsSorted rule_id action_id key_id st w in
      (
        _,
        rw (
          get_bucket_lem,
          lower_bound_lem _ (now - window_ms) s,
          upper_bound_lem _ now s,
          slice-window (now - window_ms) now (omega arith) _ s,
        ),
        get_bucket-IsWf rule_id action_id key_id st w,
        get_bucket-SameBuckets rule_id action_id key_id st,
      )

  -- For a store whose buckets are sorted, count succeeds and returns the number of entries of the
  -- bucket with now - window ≤ at ≤ now, keeps every bucket sorted, and changes the entries of no
  -- bucket.
  pub count_lem :
      (window_ms now : ℕ)
      → (st' : Buckets P) × (count rule_id action_id key_id window_ms now st
          ≡ some (
            length (filter (in_window (now - window_ms) now) (bucket rule_id action_id key_id st)),
            st',
          ))
        × IsWf st'
        × SameBuckets st st'
  unfolding count
  count_lem window_ms now =
      let s = bucket-IsSorted rule_id action_id key_id st w in
      let e =
        count-in_window (now - window_ms) now (omega arith) (bucket rule_id action_id key_id st) in
      (
        _,
        rw (get_bucket_lem, lower_bound_lem _ (now - window_ms) s, upper_bound_lem _ now s)
            (ground (arith, e)),
        get_bucket-IsWf rule_id action_id key_id st w,
        get_bucket-SameBuckets rule_id action_id key_id st,
      )

  -- For a store whose buckets are sorted, append_and_count gives the count and the store that
  -- append followed by count gives.
  pub append_and_count_lem :
      (entry : AggregationEntry P) (window_ms now : ℕ)
      → append_and_count rule_id action_id key_id entry window_ms now st ≡ (
          append rule_id action_id key_id entry st >>= count rule_id action_id key_id window_ms now)
  unfolding append_and_count count
  append_and_count_lem entry window_ms now =
      let s = bucket-IsSorted rule_id action_id key_id st w in
      rw
        (
          append-put_bucket entry,
          get_bucket_lem,
          insert_sorted_lem _ entry s,
          get_bucket-put_bucket,
          put_bucket-put_bucket,
          get_bucket_lem,
          get_bucket-put_bucket,
        )
        (simp (bucket-put_bucket_self, put_bucket-put_bucket))
