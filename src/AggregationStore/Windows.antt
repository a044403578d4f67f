-- ===== src/AggregationStore/Windows.antt =====
-- What the searches cut out of a sorted bucket, against filters that know nothing of order.
use test_assestment.Common.{
  ℕ, ◌+◌, ◌≤◌, ◌≡◌, refl, sym, ap, ◌∙◌, Bool, false, not, ◌&&◌, some, List, [], ◌∷◌, ◌++◌, ltb, leb,
  take, drop, slice, filter, All, All-mono, All-filter, All-filter_self, All-append, filter-filter,
  filter_congr, arith, Bool-cases, inl, inr,
}
use test_assestment.AggregationStore.{AggregationEntry, insert_sorted}
use test_assestment.AggregationStore.Search.{
  IsSorted, IsEarly, count_p, filter-nil_of_late, search_of_IsSorted,
}

module _ {ℓ} {P : Type ℓ} where
  -- `[cutoff, now]`
  abbrev pub in_window : ℕ → ℕ → AggregationEntry P → Bool
  in_window cutoff now e = leb cutoff e.at && leb e.at now

  pub filter-IsSorted :
      (p : AggregationEntry P → Bool) (xs : List (AggregationEntry P))
      → IsSorted xs
      → IsSorted (filter p xs)
  filter-IsSorted p [] s = tt
  filter-IsSorted p (x ∷ xs) (h, s) =
      let kept = All-filter (λ e. x.at ≤ e.at) p xs h in ground (arith, filter-IsSorted p xs s)

  module _ (before : AggregationEntry P → Bool) (early : IsEarly before) where
    filter-eq_of_late :
        (x : AggregationEntry P) (xs : List (AggregationEntry P))
        → before x ≡ false
        → All (λ e. x.at ≤ e.at) xs
        → filter (λ e. not (before e)) xs ≡ xs
    filter-eq_of_late x [] late h = refl
    filter-eq_of_late x (y ∷ xs) late (p, h) =
        ground (arith, early x y p, filter-eq_of_late x xs late h)

    pub take-count :
        (xs : List (AggregationEntry P))
        → IsSorted xs
        → take (count_p before xs) xs ≡ filter before xs
    take-count [] s = refl
    take-count (x ∷ xs) (h, s) = elim (Bool-cases (before x)) [
      | inl b ↦ rw b (ap (◌∷◌ x) (take-count xs s))
      | inr b ↦ rw (b, filter-nil_of_late before early x xs b h) refl
    ]

    pub drop-count :
        (xs : List (AggregationEntry P))
        → IsSorted xs
        → drop (count_p before xs) xs ≡ filter (λ e. not (before e)) xs
    drop-count [] s = refl
    drop-count (x ∷ xs) (h, s) = elim (Bool-cases (before x)) [
      | inl b ↦ rw b (drop-count xs s)
      | inr b ↦
          rw (b, filter-nil_of_late before early x xs b h)
            (ap (◌∷◌ x) (sym (filter-eq_of_late x xs b h)))
    ]

  module _ (cutoff now : ℕ) (h : cutoff ≤ now) where
    count-filter :
        (xs : List (AggregationEntry P))
        → count_p (λ e. ltb e.at cutoff) (filter (λ e. leb e.at now) xs)
          ≡ count_p (λ e. ltb e.at cutoff) xs
    count-filter [] = refl
    count-filter (x ∷ xs) = ground (arith, count-filter xs)

    pub count-in_window :
        (xs : List (AggregationEntry P))
        → count_p (λ e. leb e.at now) xs
          ≡ count_p (λ e. ltb e.at cutoff) xs + count_p (in_window cutoff now) xs
    count-in_window [] = omega arith
    count-in_window (x ∷ xs) = ground (arith, count-in_window xs)

    pub slice-window :
        (xs : List (AggregationEntry P))
        → IsSorted xs
        → slice (count_p (λ e. ltb e.at cutoff) xs) (count_p (λ e. leb e.at now) xs) xs
          ≡ filter (in_window cutoff now) xs
    slice-window xs s =
        let late : AggregationEntry P → Bool = λ e. ltb e.at cutoff in
        let kept : AggregationEntry P → Bool = λ e. leb e.at now in
        let cut : IsEarly late = λ a b p q. ground arith in
        let keep : IsEarly kept = λ a b p q. ground arith in
        rw (take-count kept keep xs s, ← count-filter xs)
          (drop-count late cut (filter kept xs) (filter-IsSorted kept xs s)
            ∙ filter-filter (λ e. not (late e)) kept xs
            ∙ filter_congr _ (in_window cutoff now) (λ e. ground arith) xs)

  -- Where an entry goes: behind all of its own time or earlier, so ties keep the order of arrival.
  abbrev pub inserted : List (AggregationEntry P) → AggregationEntry P → List (AggregationEntry P)
  inserted arr entry =
      filter (λ e. leb e.at entry.at) arr ++ entry ∷ filter (λ e. not (leb e.at entry.at)) arr

  pub insert_sorted_lem :
      (arr : List (AggregationEntry P)) (entry : AggregationEntry P)
      → IsSorted arr
      → insert_sorted arr entry ≡ some (inserted arr entry)
  unfolding insert_sorted
  insert_sorted_lem arr entry s =
      let before = λ (e : AggregationEntry P). leb e.at entry.at in
      let early : IsEarly before = λ a b h k. ground arith in
      rw (
        search_of_IsSorted before early arr s,
        take-count before early arr s,
        drop-count before early arr s,
      )

  IsSorted-append :
      (t : ℕ) (xs ys : List (AggregationEntry P))
      → IsSorted xs
      → IsSorted ys
      → All (λ e. e.at ≤ t) xs
      → All (λ e. t ≤ e.at) ys
      → IsSorted (xs ++ ys)
  IsSorted-append t [] ys sx sy hx hy = sy
  IsSorted-append t (x ∷ xs) ys (h, sx) sy (p, hx) hy = (
    All-append (λ e. x.at ≤ e.at) xs ys h (All-mono (λ e q. omega arith) ys hy),
    IsSorted-append t xs ys sx sy hx hy,
  )

  pub inserted-IsSorted :
      (arr : List (AggregationEntry P)) (entry : AggregationEntry P)
      → IsSorted arr
      → IsSorted (inserted arr entry)
  inserted-IsSorted arr entry s =
      let early = λ (e : AggregationEntry P). leb e.at entry.at in
      let late = λ (e : AggregationEntry P). not (leb e.at entry.at) in
      IsSorted-append entry.at (filter early arr) (entry ∷ filter late arr)
        (filter-IsSorted early arr s)
        (All-mono (λ e q. ground arith) _ (All-filter_self late arr), filter-IsSorted late arr s)
        (All-mono (λ e q. ground arith) _ (All-filter_self early arr))
        (omega arith, All-mono (λ e q. ground arith) _ (All-filter_self late arr))
