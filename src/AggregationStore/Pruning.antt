-- ===== src/AggregationStore/Pruning.antt =====
-- What a prune takes away, and what it leaves to be listed.
use test_assestment.Common.{
  ℕ, ◌-◌, ◌≤◌, String, ◌≡◌, refl, Bool, not, Option, some, List, [], ◌∷◌, subst, arith,
  Option-cases, inl, inr, ap, ◌∙◌, filter, ltb, filter_congr, filter-filter,
}
use test_assestment.JsMap.{Map, get, map_values}
use test_assestment.JsMap.Laws.{AllValues, get-map_values, map_values-AllValues}
use test_assestment.AggregationStore.{
  AggregationEntry, Buckets, bucket, list, prune, each_value, prune_entries, ◌>>=◌,
}
use test_assestment.AggregationStore.Search.{IsSorted, IsEarly, lower_bound_lem}
use test_assestment.AggregationStore.Windows.{in_window, drop-count, filter-IsSorted}
use test_assestment.AggregationStore.Buckets.{IsWf}
use test_assestment.AggregationStore.Effects.{list_lem}

-- Within a map whose values are all as `f` wants them, the loop applies `g` to each value.
each_value_lem {ℓ κ μ} :
    {V : Type κ} {W : Type μ} (Ok : V → Type ℓ) (f : V → Option W) (g : V → W)
    (h : (v : V) → Ok v → f v ≡ some (g v)) (m : Map V)
    → AllValues Ok m
    → each_value f m ≡ some (map_values g m)
unfolding each_value
each_value_lem Ok f g h [] a = refl
each_value_lem Ok f g h ((k, v) ∷ m) (p, a) = rw (h v p, each_value_lem Ok f g h m a)

module _ {ℓ} {P : Type ℓ} where
  -- What `prune` keeps.
  abbrev pub is_late : ℕ → AggregationEntry P → Bool
  is_late cutoff e = not (ltb e.at cutoff)

  module _ (cutoff : ℕ) where
    prune_entries_lem :
        (entries : List (AggregationEntry P))
        → IsSorted entries
        → prune_entries cutoff entries ≡ some (filter (is_late cutoff) entries)
    unfolding prune_entries
    prune_entries_lem entries s =
        let cut : IsEarly (λ (e : AggregationEntry P). ltb e.at cutoff) = λ a b p q. ground arith in
        rw (lower_bound_lem entries cutoff s, ← drop-count (λ e. ltb e.at cutoff) cut entries s)
          (ground arith)

    pruned : Buckets P → Buckets P
    pruned = map_values (map_values (map_values (filter (is_late cutoff))))

    bucket-pruned :
        (r a k : String) (st : Buckets P)
        → bucket r a k (pruned st) ≡ filter (is_late cutoff) (bucket r a k st)
    unfolding bucket pruned get
    bucket-pruned r a k st = elim (Option-cases (get r st)) [
      | inl e ↦ rw (get-map_values, e)
      | inr (m, e) ↦ elim (Option-cases (get a m)) [
        | inl f ↦ rw (get-map_values, e, get-map_values, f)
        | inr (n, f) ↦ elim (Option-cases (get k n)) [
          | inl g ↦ rw (get-map_values, e, get-map_values, f, get-map_values, g)
          | inr (es, g) ↦ rw (get-map_values, e, get-map_values, f, get-map_values, g)
        ]
      ]
    ]

    pruned-IsWf : (st : Buckets P) → IsWf st → IsWf (pruned st)
    unfolding pruned
    pruned-IsWf st w =
        map_values-AllValues _ _ _
          (map_values-AllValues _ _ _
            (map_values-AllValues _ _ _ (filter-IsSorted (is_late cutoff))))
          st w

  -- For a store whose buckets are sorted, prune succeeds, keeps every bucket sorted, and leaves in
  -- each bucket exactly the entries that are not earlier than now - older_than, in order.
  pub prune_lem :
      (older_than_ms now : ℕ) (st : Buckets P)
      → IsWf st
      → (st' : Buckets P) × (prune older_than_ms now st ≡ some st')
        × IsWf st'
        × ((r a k : String)
            → bucket r a k st' ≡ filter (is_late (now - older_than_ms)) (bucket r a k st))
  unfolding prune pruned
  prune_lem older_than_ms now st w =
      let cutoff = now - older_than_ms in
      (
        pruned cutoff st,
        each_value_lem _ _ _
            (each_value_lem _ _ _ (each_value_lem IsSorted _ _ (prune_entries_lem cutoff))) st w,
        pruned-IsWf cutoff st w,
        λ r a k. bucket-pruned cutoff r a k st,
      )

  late-in_window :
      (cutoff from now : ℕ)
      → cutoff ≤ from
      → (xs : List (AggregationEntry P))
      → filter (in_window from now) (filter (is_late cutoff) xs) ≡ filter (in_window from now) xs
  late-in_window cutoff from now h xs =
      filter-filter (in_window from now) (is_late cutoff) xs
      ∙ filter_congr _ (in_window from now) (λ e. ground arith) xs

  -- For a store whose buckets are sorted, a window that is no longer than what prune keeps lists
  -- the same entries after prune as before it, at that time or any later one.
  pub prune_keeps_list :
      (r a k : String) (older_than_ms window_ms now later : ℕ) (st st' : Buckets P)
      → IsWf st
      → window_ms ≤ older_than_ms
      → now ≤ later
      → prune older_than_ms now st ≡ some st'
      → (list r a k window_ms later st' >>= λ found. some found.0)
        ≡ (list r a k window_ms later st >>= λ found. some found.0)
  prune_keeps_list r a k older_than_ms window_ms now later st st' w within after e =
      let (pruned', ran, w', kept) = prune_lem older_than_ms now st w in
      let same : pruned' ≡ st' = ground (arith, ran, e) in
      let w'' : IsWf st' = subst IsWf same w' in
      let (_, e1, _, _) = list_lem r a k st w window_ms later in
      let (_, e2, _, _) = list_lem r a k st' w'' window_ms later in
      rw (e1, e2, ← same, kept r a k)
        (ap some (late-in_window (now - older_than_ms) (later - window_ms) later (omega arith) _))
