-- ===== src/PostgresStorage/Entries/Held.antt =====
-- What the table holds under a rule, an action and a key, after each statement and for each query.
use test_assestment.Common.{
  ℕ, ◌-◌, ◌<◌, String, ◌≡◌, refl, ap, sym, ◌∙◌, Bool, false, not, ◌&&◌, List, [], ◌∷◌, ◌==◌, map,
  leb, ltb, length, filter, sort_by, arith, Bool-cases, inl, inr, if◌then◌else◌, All, All-mono,
  All-append, All-filter, IsSortedBy, IsSortedBy-concat, sort_by-concat, sort_by_of_IsSortedBy,
  filter-sort_by, filter-IsSortedBy, filter-map, length-map, length-sort_by, map-insert_after,
  insert_after, filter-append, filter-filter, filter_comm,
}
use mathlib.Core.List.{append-nil}
use test_assestment.AggregationStore.{AggregationEntry}
use test_assestment.AggregationStore.Search.{IsSorted}
use test_assestment.AggregationStore.Windows.{in_window, inserted}
use test_assestment.AggregationStore.Pruning.{is_late}
use test_assestment.PostgresStorage.Entries.{
  EntryRow, EntryTable, init, to_aggregation_entry, order_by_time, is_of, is_within, matching,
  count_with,
}
use test_assestment.PostgresStorage.Entries

module _ {ℓ} {P : Type ℓ} where
  time : AggregationEntry P → ℕ
  time e = e.at

  keep_late :
      (t : ℕ) (xs : List (AggregationEntry P))
      → All (λ e. t < e.at) xs
      → (filter (λ e. leb e.at t) xs ≡ []) × (filter (λ e. not (leb e.at t)) xs ≡ xs)
  keep_late t [] h = (refl, refl)
  keep_late t (x ∷ xs) (p, h) =
      let late : leb x.at t ≡ false = ground arith in
      let (none_early, all_late) = keep_late t xs h in
      (rw late none_early, rw late (ap (◌∷◌ x) all_late))

  pub insert_after-inserted :
      (e : AggregationEntry P) (arr : List (AggregationEntry P))
      → IsSorted arr
      → insert_after (λ x. x.at) e arr ≡ inserted arr e
  unfolding insert_after
  insert_after-inserted e [] s = refl
  insert_after-inserted e (x ∷ xs) (h, s) = elim (Bool-cases (leb x.at e.at)) [
    | inl b ↦ rw b (ap (◌∷◌ x) (insert_after-inserted e xs s))
    | inr b ↦
        let late : e.at < x.at = ground arith in
        let (none_early, all_late) = keep_late e.at xs (All-mono (λ y q. omega arith) xs h) in
        rw (b, none_early, all_late)
  ]

  -- The entries under a rule, an action and a key, as the table holds them.
  abbrev pub held : String → String → String → EntryTable P → List (AggregationEntry P)
  held r a k t = map to_aggregation_entry (sort_by (λ row. row.at_ms) (filter (is_of r a k) t.rows))

  pub record IsOrdered (t : EntryTable P) : Type ℓ where
    pub ascending : IsSortedBy (λ row. row.id) t.rows
    pub fresh : All (λ row. row.id < t.next_id) t.rows

  -- What a query reads, in the order that it asks for.
  module _ (r a k : String) (window_ms now : ℕ) (t : EntryTable P) where
    within : EntryRow P → Bool
    within = is_within (now - window_ms) now

    own : List (EntryRow P)
    own = filter (is_of r a k) t.rows

    matching-filter : matching r a k window_ms now t ≡ filter within own
    unfolding matching within own
    matching-filter =
        sym (filter-filter (is_of r a k) (is_within (now - window_ms) now) t.rows)
        ∙ filter_comm (is_of r a k) (is_within (now - window_ms) now) t.rows

    pub list-held :
        IsOrdered t
        → Entries.list r a k window_ms now t
          ≡ filter (in_window (now - window_ms) now) (held r a k t)
    unfolding Entries.list order_by_time to_aggregation_entry within own
    list-held o =
        let id : EntryRow P → ℕ = λ row. row.id in
        let at : EntryRow P → ℕ = λ row. row.at_ms in
        let ascending =
          filter-IsSortedBy id within own (filter-IsSortedBy id (is_of r a k) t.rows o.ascending) in
        rw
          (
            matching-filter,
            sort_by_of_IsSortedBy id (filter within own) ascending,
            ← filter-sort_by at within own,
          )
          (sym (filter-map to_aggregation_entry (in_window (now - window_ms) now) (sort_by at own)))

    pub count_with-held :
        count_with r a k window_ms now t
        ≡ length (filter (in_window (now - window_ms) now) (held r a k t))
    unfolding count_with to_aggregation_entry within own
    count_with-held =
        let at : EntryRow P → ℕ = λ row. row.at_ms in
        rw (
          matching-filter,
          filter-map to_aggregation_entry (in_window (now - window_ms) now) (sort_by at own),
          length-map,
          filter-sort_by at within own,
          length-sort_by,
        )

  pub held-prune :
      (r a k : String) (older_than_ms now : ℕ) (t : EntryTable P)
      → held r a k (Entries.prune older_than_ms now t)
        ≡ filter (is_late (now - older_than_ms)) (held r a k t)
  unfolding Entries.prune to_aggregation_entry
  held-prune r a k older_than_ms now t =
      let at : EntryRow P → ℕ = λ row. row.at_ms in
      let kept : EntryRow P → Bool = λ row. not (ltb row.at_ms (now - older_than_ms)) in
      rw (filter_comm (is_of r a k) kept t.rows, ← filter-sort_by at kept)
        (sym (
          filter-map to_aggregation_entry (is_late (now - older_than_ms))
            (sort_by at (filter (is_of r a k) t.rows))))

  module _ (stored : P → P) where
    abbrev pub stored_entry : AggregationEntry P → AggregationEntry P
    stored_entry e = record e { payload = stored e.payload }

    pub held-append :
        (r a k r' a' k' : String) (e : AggregationEntry P) (t : EntryTable P)
        → held r' a' k' (Entries.append stored r a k e t) ≡ (
            if r == r' && (a == a' && k == k')
            then insert_after (λ x. x.at) (stored_entry e) (held r' a' k' t)
            else held r' a' k' t)
    unfolding Entries.append to_aggregation_entry
    held-append r a k r' a' k' e t = elim (Bool-cases (r == r' && (a == a' && k == k'))) [
      | inl b ↦ rw (
        filter-append,
        b,
        sort_by-concat,
        map-insert_after to_aggregation_entry (λ row. row.at_ms) (λ x. x.at) (λ row. refl),
      )
      | inr b ↦ rw (filter-append, b, append-nil)
    ]

    pub append-IsOrdered :
        (r a k : String) (e : AggregationEntry P) (t : EntryTable P)
        → IsOrdered t
        → IsOrdered (Entries.append stored r a k e t)
    unfolding Entries.append
    append-IsOrdered r a k e t o = record {
      ascending =
          IsSortedBy-concat (λ row. row.id) t.rows _
            (All-mono (λ row q. omega arith) t.rows o.fresh) o.ascending;
      fresh =
          All-append _ t.rows _ (All-mono (λ row q. omega arith) t.rows o.fresh) (omega arith, tt);
    }

  pub prune-IsOrdered :
      (older_than_ms now : ℕ) (t : EntryTable P)
      → IsOrdered t
      → IsOrdered (Entries.prune older_than_ms now t)
  unfolding Entries.prune
  prune-IsOrdered older_than_ms now t o = record {
    ascending =
        filter-IsSortedBy (λ row. row.id) (λ row. not (ltb row.at_ms (now - older_than_ms))) t.rows
          o.ascending;
    fresh =
        All-filter (λ row. row.id < t.next_id) (λ row. not (ltb row.at_ms (now - older_than_ms)))
          t.rows o.fresh;
  }
