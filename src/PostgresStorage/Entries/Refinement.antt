-- ===== src/PostgresStorage/Entries/Refinement.antt =====
-- The table answers every sequence of calls as the in-memory store does, up to what a payload is
-- read back as.
use test_assestment.Common.{
  ℕ, ◌-◌, String, ◌≡◌, refl, ap, ap₂, sym, ◌∙◌, ◌&&◌, some, List, [], ◌∷◌, ◌==◌, map, filter,
  sort_by, arith, Bool-cases, inl, inr, eq_iff, filter-map, length-map, map-insert_after,
}
use test_assestment.JsMap
use test_assestment.AggregationStore
use test_assestment.AggregationStore.{AggregationEntry, Buckets, bucket, ◌>>=◌}
use test_assestment.AggregationStore.Buckets.{IsWf, SameBuckets, bucket-IsSorted}
use test_assestment.AggregationStore.Windows.{in_window}
use test_assestment.AggregationStore.Pruning.{is_late, prune_lem}
use test_assestment.AggregationStore.Effects.{append_lem, list_lem, count_lem, append_and_count_lem}
use test_assestment.AggregationStore.Calls.{Call, Answer, done, found, counted}
use test_assestment.PostgresStorage.Entries.{EntryRow, EntryTable, init, count_with}
use test_assestment.PostgresStorage.Entries
use test_assestment.PostgresStorage.Entries.Calls.{call, calls, stored_answer}
use test_assestment.PostgresStorage.Entries.Held.{
  held, IsOrdered, stored_entry, list-held, count_with-held, held-append, held-prune,
  append-IsOrdered, prune-IsOrdered, insert_after-inserted,
}

module _ {ℓ} {P : Type ℓ} (stored : P → P) where
  -- The store and the table hold the same entries.
  pub record Refines (st : Buckets P) (t : EntryTable P) : Type ℓ where
    pub sorted : IsWf st
    pub ordered : IsOrdered t
    pub same : (r a k : String) → held r a k t ≡ map (stored_entry stored) (bucket r a k st)

  append-Refines :
      (r a k : String) (entry : AggregationEntry P) (st : Buckets P) (t : EntryTable P)
      → Refines st t
      → (st' : Buckets P) × (AggregationStore.append r a k entry st ≡ some st')
        × Refines st' (Entries.append stored r a k entry t)
  append-Refines r a k entry st t h =
      let (st', ran, w, put) = append_lem r a k st h.sorted entry in
      (
        st',
        ran,
        record {
          sorted = w;
          ordered = append-IsOrdered stored r a k entry t h.ordered;
          same = λ r' a' k'. elim (Bool-cases (r == r' && (a == a' && k == k'))) [
            | inl b ↦
                rw
                  (
                    held-append,
                    b,
                    put r' a' k',
                    b,
                    h.same r' a' k',
                    ← (eq_iff r r').0 (ground arith),
                    ← (eq_iff a a').0 (ground arith),
                    ← (eq_iff k k').0 (ground arith),
                  )
                  (sym (
                      map-insert_after (stored_entry stored) (λ e. e.at) (λ e. e.at) (λ e. refl)
                        entry (bucket r a k st))
                    ∙ ap (map (stored_entry stored)) (
                        insert_after-inserted entry (bucket r a k st)
                          (bucket-IsSorted r a k st h.sorted)))
            | inr b ↦ rw (held-append, b, put r' a' k', b) (h.same r' a' k')
          ];
        },
      )

  prune-Refines :
      (older_than_ms now : ℕ) (st : Buckets P) (t : EntryTable P)
      → Refines st t
      → (st' : Buckets P) × (AggregationStore.prune older_than_ms now st ≡ some st')
        × Refines st' (Entries.prune older_than_ms now t)
  prune-Refines older_than_ms now st t h =
      let (st', ran, w, kept) = prune_lem older_than_ms now st h.sorted in
      (
        st',
        ran,
        record {
          sorted = w;
          ordered = prune-IsOrdered older_than_ms now t h.ordered;
          same = λ r a k.
              rw (held-prune, kept r a k, h.same r a k)
                (filter-map (stored_entry stored) (is_late (now - older_than_ms))
                  (bucket r a k st));
        },
      )

  read-Refines :
      (st st' : Buckets P) (t : EntryTable P)
      → Refines st t
      → IsWf st'
      → SameBuckets st st'
      → Refines st' t
  read-Refines st st' t h w keep = record {
    sorted = w;
    ordered = h.ordered;
    same = λ r a k. rw (keep r a k) (h.same r a k);
  }

  list-Refines :
      (r a k : String) (window_ms now : ℕ) (st : Buckets P) (t : EntryTable P)
      → Refines st t
      → (entries : List (AggregationEntry P)) × (st' : Buckets P) × (AggregationStore.list r a k
            window_ms now st
          ≡ some (entries, st'))
        × (Entries.list r a k window_ms now t ≡ map (stored_entry stored) entries)
        × Refines st' t
  list-Refines r a k window_ms now st t h =
      let (st', ran, w, keep) = list_lem r a k st h.sorted window_ms now in
      (
        filter (in_window (now - window_ms) now) (bucket r a k st),
        st',
        ran,
        rw (list-held r a k window_ms now t h.ordered, h.same r a k)
            (filter-map (stored_entry stored) (in_window (now - window_ms) now) (bucket r a k st)),
        read-Refines st st' t h w keep,
      )

  count-Refines :
      (r a k : String) (window_ms now : ℕ) (st : Buckets P) (t : EntryTable P)
      → Refines st t
      → (st' : Buckets P) × (AggregationStore.count r a k window_ms now st
          ≡ some (count_with r a k window_ms now t, st'))
        × Refines st' t
  count-Refines r a k window_ms now st t h =
      let (st', ran, w, keep) = count_lem r a k st h.sorted window_ms now in
      (
        st',
        rw
            (
              count_with-held r a k window_ms now t,
              h.same r a k,
              filter-map (stored_entry stored) (in_window (now - window_ms) now) (bucket r a k st),
              length-map,
            )
            ran,
        read-Refines st st' t h w keep,
      )

  call-Refines :
      (now : ℕ) (c : Call P) (st : Buckets P) (t : EntryTable P)
      → Refines st t
      → (answer : Answer P) × (st' : Buckets P) × (AggregationStore.Calls.call now c st
          ≡ some (answer, st'))
        × ((call stored now c t).0 ≡ stored_answer stored answer)
        × Refines st' (call stored now c t).1
  unfolding call AggregationStore.Calls.call
  call-Refines now (Call.append r a k entry) st t h =
      let (st', ran, h') = append-Refines r a k entry st t h in (done, st', rw ran, refl, h')
  call-Refines now (Call.list r a k window_ms) st t h =
      let (entries, st', ran, same, h') = list-Refines r a k window_ms now st t h in
      (found entries, st', rw ran, ap found same, h')
  call-Refines now (Call.count r a k window_ms) st t h =
      let (st', ran, h') = count-Refines r a k window_ms now st t h in
      (counted (count_with r a k window_ms now t), st', rw ran, refl, h')
  call-Refines now (Call.append_and_count r a k entry window_ms) st t h =
      let t' = Entries.append stored r a k entry t in
      let (st', ran, h') = append-Refines r a k entry st t h in
      let (st'', ran', h'') = count-Refines r a k window_ms now st' t' h' in
      (
        counted (count_with r a k window_ms now t'),
        st'',
        rw (append_and_count_lem r a k st h.sorted entry window_ms now, ran, ran'),
        refl,
        h'',
      )
  call-Refines now (Call.prune older_than_ms) st t h =
      let (st', ran, h') = prune-Refines older_than_ms now st t h in (done, st', rw ran, refl, h')

  pub calls-Refines :
      (cs : List (ℕ × Call P)) (st : Buckets P) (t : EntryTable P)
      → Refines st t
      → (answers : List (Answer P)) × (st' : Buckets P) × (AggregationStore.Calls.calls cs st
          ≡ some (answers, st'))
        × ((calls stored cs t).0 ≡ map (stored_answer stored) answers)
        × Refines st' (calls stored cs t).1
  unfolding calls AggregationStore.Calls.calls
  calls-Refines [] st t h = ([], st, refl, refl, h)
  calls-Refines ((now, c) ∷ cs) st t h =
      let (answer, st', ran, same, h') = call-Refines now c st t h in
      let (answers, st'', ran', same', h'') = calls-Refines cs st' (call stored now c t).1 h' in
      (answer ∷ answers, st'', rw (ran, ran'), ap₂ ◌∷◌ same same', h'')

  pub init-Refines : Refines [] init
  unfolding init bucket JsMap.get sort_by
  init-Refines = record {
    sorted = tt;
    ordered = record { ascending = tt; fresh = tt };
    same = λ r a k. refl;
  }

  -- Whatever sequence of appends, lists, counts, appends with counts and prunes is made of a new
  -- in-memory store and of an empty table, at the same times, every call of the store succeeds and
  -- the table gives the same answers, with each payload as the database reads it back.
  pub calls-init :
      (cs : List (ℕ × Call P))
      → (answers : List (Answer P)) × (st : Buckets P) × (AggregationStore.Calls.calls cs []
          ≡ some (answers, st))
        × ((calls stored cs init).0 ≡ map (stored_answer stored) answers)
  calls-init cs =
      let (answers, st, ran, same, _) = calls-Refines cs [] init init-Refines in
      (answers, st, ran, same)
