-- ===== src/AggregationStore/Search.antt =====
-- The binary searches of the store: their loops end, read inside the array, and find the number of
-- entries that come before the target.
use test_assestment.Common.{
  ℕ, zero, suc, ◌+◌, ◌-◌, ◌/◌, ◌≤◌, ◌<◌, ◌≡◌, refl, ap, Bool, true, false, some, List, [], ◌∷◌, ltb,
  leb, length, get_elem?, filter, All, length-filter-le, arith, Bool-cases, inl, inr,
}
use test_assestment.AggregationStore.{AggregationEntry, search_from, lower_bound, upper_bound}

module _ {ℓ} {P : Type ℓ} where
  abbrev pub IsSorted : List (AggregationEntry P) → Type ℓ
  IsSorted [] = Unit
  IsSorted (x ∷ xs) = All (λ e. x.at ≤ e.at) xs × IsSorted xs

  -- The number of entries that pass a test.
  abbrev pub count_p : (AggregationEntry P → Bool) → List (AggregationEntry P) → ℕ
  count_p p xs = length (filter p xs)

  get_elem?-some :
      (i : ℕ) (xs : List (AggregationEntry P))
      → i < length xs
      → (e : AggregationEntry P) × (get_elem? xs i ≡ some e)
  get_elem?-some i [] h = absurd (omega arith)
  get_elem?-some zero (x ∷ xs) h = (x, refl)
  get_elem?-some (suc i) (x ∷ xs) h = get_elem?-some i xs (omega arith)

  -- Where the test holds on the first `c` entries and on no other, the search finds `c`.
  search_from_lem :
      (before : AggregationEntry P → Bool) (c : ℕ) (arr : List (AggregationEntry P))
      (split : (i : ℕ) (e : AggregationEntry P) → get_elem? arr i ≡ some e → before e ≡ ltb i c)
      (fuel lo hi : ℕ)
      → lo ≤ c
      → c ≤ hi
      → hi ≤ length arr
      → hi - lo < fuel
      → search_from before fuel lo hi arr ≡ some c
  unfolding search_from
  search_from_lem before c arr split zero lo hi p q r s = absurd (omega arith)
  search_from_lem before c arr split (suc fuel) lo hi p q r s = elim (Bool-cases (ltb lo hi)) [
    | inl more ↦
        let mid : ℕ = (lo + hi) / 2 in
        let below : mid < hi = ground arith in
        let (e, found) = get_elem?-some mid arr (omega arith) in
        ground (
          arith,
          found,
          split mid e found,
          search_from_lem before c arr split fuel (mid + 1) hi,
          search_from_lem before c arr split fuel lo mid,
        )
    | inr done ↦ ground arith
  ]

  -- A test that holds of every earlier time than one at which it holds.
  abbrev pub IsEarly : (AggregationEntry P → Bool) → Type ℓ
  IsEarly before = (a b : AggregationEntry P) → a.at ≤ b.at → before b ≡ true → before a ≡ true

  pub filter-nil_of_late :
      (before : AggregationEntry P → Bool)
      → IsEarly before
      → (x : AggregationEntry P) (xs : List (AggregationEntry P)) → before x ≡ false
      → All (λ e. x.at ≤ e.at) xs
      → filter before xs ≡ []
  filter-nil_of_late before early x [] late h = refl
  filter-nil_of_late before early x (y ∷ xs) late (p, h) =
      ground (arith, early x y p, filter-nil_of_late before early x xs late h)

  split_of_IsSorted :
      (before : AggregationEntry P → Bool)
      → IsEarly before
      → (xs : List (AggregationEntry P)) → IsSorted xs
      → (i : ℕ) (e : AggregationEntry P) → get_elem? xs i ≡ some e
      → before e ≡ ltb i (count_p before xs)
  split_of_IsSorted before early [] s i e h = ground arith
  split_of_IsSorted before early (x ∷ xs) (p, s) zero e h = elim (Bool-cases (before x)) [
    | inl b ↦ ground arith
    | inr b ↦ ground (arith, ap length (filter-nil_of_late before early x xs b p))
  ]
  split_of_IsSorted before early (x ∷ xs) (p, s) (suc i) e h =
      let ih = split_of_IsSorted before early xs s i e h in
      elim (Bool-cases (before x)) [
        | inl b ↦ ground arith
        | inr b ↦ ground (arith, ap length (filter-nil_of_late before early x xs b p))
      ]

  pub search_of_IsSorted :
      (before : AggregationEntry P → Bool)
      → IsEarly before
      → (arr : List (AggregationEntry P)) → IsSorted arr
      → search_from before (suc (length arr)) 0 (length arr) arr ≡ some (count_p before arr)
  search_of_IsSorted before early arr s =
      let le = length-filter-le before arr in
      search_from_lem before (count_p before arr) arr (split_of_IsSorted before early arr s)
        (suc (length arr)) 0 (length arr) (omega arith) le (omega arith) (omega arith)

  pub lower_bound_lem :
      (arr : List (AggregationEntry P)) (target : ℕ)
      → IsSorted arr
      → lower_bound arr target ≡ some (count_p (λ e. ltb e.at target) arr)
  unfolding lower_bound
  lower_bound_lem arr target s =
      search_of_IsSorted (λ e. ltb e.at target) (λ a b h k. ground arith) arr s

  pub upper_bound_lem :
      (arr : List (AggregationEntry P)) (target : ℕ)
      → IsSorted arr
      → upper_bound arr target ≡ some (count_p (λ e. leb e.at target) arr)
  unfolding upper_bound
  upper_bound_lem arr target s =
      search_of_IsSorted (λ e. leb e.at target) (λ a b h k. ground arith) arr s
