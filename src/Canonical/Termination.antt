-- ===== src/Canonical/Termination.antt =====
-- The walk of canonicalJson over heaps whose references point inside, with its fuel.
use test_assestment.Common.{
  ℕ, zero, suc, ◌+◌, ◌≤◌, ◌<◌, ◌≡◌, refl, true, false, not, Option, some, List, [], ◌∷◌, map,
  nat_eq, length, get_elem?, filter, All, All-mono, arith, Bool-cases, inl, inr, codes_eq,
}
use test_assestment.Canonical.{
  JsValue, undefined, null, function, boolean, number, text, reference, Entries, HeapObject, array,
  object, Heap, has, get_entry, map_each, entry_text, sort_keys, object_text, canonical_inner,
  canonical_json,
}

-- A reference points into the heap.
abbrev pub IsInside : ℕ → JsValue → Type 0
IsInside n (reference i) = i < n
IsInside n v = Unit

abbrev pub HoldsInside : ℕ → HeapObject → Type 0
HoldsInside n (array items) = All (IsInside n) items
HoldsInside n (object es) = All (λ e. IsInside n e.1) es

abbrev IsDistinct : List ℕ → Type 0
IsDistinct [] = Unit
IsDistinct (x ∷ xs) = (has xs x ≡ false) × IsDistinct xs

has-filter :
    (n x : ℕ) (xs : List ℕ) → has xs x ≡ false → has (filter (λ y. not (nat_eq y n)) xs) x ≡ false
unfolding has
has-filter n x [] h = refl
has-filter n x (y ∷ ys) h = ground (arith, has-filter n x ys)

filter-IsDistinct :
    (n : ℕ) (xs : List ℕ) → IsDistinct xs → IsDistinct (filter (λ y. not (nat_eq y n)) xs)
filter-IsDistinct n [] d = tt
filter-IsDistinct n (x ∷ xs) (h, d) = elim (Bool-cases (nat_eq x n)) [
  | inl b ↦ rw b (filter-IsDistinct n xs d)
  | inr b ↦ rw b (has-filter n x xs h, filter-IsDistinct n xs d)
]

absent :
    (x : ℕ) (xs : List ℕ)
    → has xs x ≡ false
    → length (filter (λ y. not (nat_eq y x)) xs) ≡ length xs
unfolding has
absent x [] h = refl
absent x (y ∷ ys) h = ground (arith, absent x ys)

length-filter :
    (n : ℕ) (xs : List ℕ)
    → IsDistinct xs
    → length xs ≤ suc (length (filter (λ y. not (nat_eq y n)) xs))
length-filter n [] d = omega arith
length-filter n (x ∷ xs) (h, d) = elim (Bool-cases (nat_eq x n)) [
  | inl b ↦
      let same : x ≡ n = ground arith in rw b (let e = absent n xs (rw (← same) h) in omega arith)
  | inr b ↦ rw b (let e = length-filter n xs d in omega arith)
]

All-below :
    (n : ℕ) (xs : List ℕ)
    → All (λ x. x < suc n) xs
    → All (λ x. x < n) (filter (λ y. not (nat_eq y n)) xs)
All-below n [] h = tt
All-below n (x ∷ xs) (p, h) = ground (arith, All-below n xs h)

-- Distinct numbers below a bound are at most as many.
length-le : (n : ℕ) (xs : List ℕ) → IsDistinct xs → All (λ x. x < n) xs → length xs ≤ n
length-le zero [] d h = omega arith
length-le zero (x ∷ xs) d (p, h) = absurd (omega arith)
length-le (suc n) xs d h =
    let fewer =
      length-le n (filter (λ y. not (nat_eq y n)) xs) (filter-IsDistinct n xs d)
        (All-below n xs h) in
    let one = length-filter n xs d in omega arith

-- What a call gives back.
abbrev Returns {ℓ} : {A : Type ℓ} → Option A → Type ℓ
Returns {A} o = (a : A) × (o ≡ some a)

map_each-Returns {ℓ κ} :
    {A : Type ℓ} {B : Type κ} (f : A → Option B) (xs : List A)
    → All (λ x. Returns (f x)) xs
    → Returns (map_each f xs)
unfolding map_each
map_each-Returns f [] h = ([], refl)
map_each-Returns f (x ∷ xs) ((y, e), h) =
    let (ys, e') = map_each-Returns f xs h in (y ∷ ys, rw (map_each, e, e'))

all_of_each {ℓ κ} : {A : Type ℓ} (Q : A → Type κ) (xs : List A) → ((x : A) → Q x) → All Q xs
all_of_each Q [] h = tt
all_of_each Q (x ∷ xs) h = (h x, all_of_each Q xs h)

get_entry-IsInside :
    (n : ℕ) (k : List ℕ) (es : Entries) → All (λ e. IsInside n e.1) es → IsInside n (get_entry k es)
unfolding get_entry
get_entry-IsInside n k [] h = tt
get_entry-IsInside n k ((j, v) ∷ es) (p, h) = elim (Bool-cases (codes_eq j k)) [
  | inl b ↦ rw b p
  | inr b ↦ rw b (get_entry-IsInside n k es h)
]

module _ (quote : List ℕ → List ℕ) (heap : Heap) where
  entry_text-Returns :
      (k : List ℕ) (t : Option (List ℕ)) → Returns t → Returns (entry_text quote heap k t)
  entry_text-Returns k t (a, e) = rw e (_, refl)

  object_text-Returns :
      (inner : JsValue → Option (List ℕ)) (o : HeapObject)
      → ((v : JsValue) → IsInside (length heap) v → Returns (inner v))
      → HoldsInside (length heap) o
      → Returns (object_text quote heap inner o)
  unfolding object_text
  object_text-Returns inner (array items) h inside =
      let (parts, e) = map_each-Returns inner items (All-mono h items inside) in rw e (_, refl)
  object_text-Returns inner (object es) h inside =
      let keys = sort_keys (map (λ e. e.0) es) in
      let (parts, e) =
        map_each-Returns (λ k. entry_text quote heap k (inner (get_entry k es))) keys
          (all_of_each _ keys (λ k.
            entry_text-Returns k (inner (get_entry k es))
              (h (get_entry k es) (get_entry-IsInside (length heap) k es inside)))) in
      rw e (_, refl)

  get_elem?-HoldsInside :
      (m i : ℕ) (os : List HeapObject)
      → All (HoldsInside m) os
      → i < length os
      → (o : HeapObject) × (get_elem? os i ≡ some o) × HoldsInside m o
  get_elem?-HoldsInside m i [] h lt = absurd (omega arith)
  get_elem?-HoldsInside m zero (o ∷ os) (p, h) lt = (o, refl, p)
  get_elem?-HoldsInside m (suc i) (o ∷ os) (p, h) lt = get_elem?-HoldsInside m i os h (omega arith)

  canonical_inner-Returns :
      (fuel : ℕ) (ancestors : List ℕ) (v : JsValue)
      → All (HoldsInside (length heap)) heap
      → IsDistinct ancestors
      → All (λ i. i < length heap) ancestors
      → length heap < fuel + length ancestors
      → IsInside (length heap) v
      → Returns (canonical_inner quote heap fuel ancestors v)
  unfolding canonical_inner
  canonical_inner-Returns zero ancestors v w d b lt inside =
      let few = length-le (length heap) ancestors d b in absurd (omega arith)
  canonical_inner-Returns (suc fuel) ancestors undefined w d b lt inside = (_, refl)
  canonical_inner-Returns (suc fuel) ancestors null w d b lt inside = (_, refl)
  canonical_inner-Returns (suc fuel) ancestors function w d b lt inside = (_, refl)
  canonical_inner-Returns (suc fuel) ancestors (boolean true) w d b lt inside = (_, refl)
  canonical_inner-Returns (suc fuel) ancestors (boolean false) w d b lt inside = (_, refl)
  canonical_inner-Returns (suc fuel) ancestors (number m) w d b lt inside = (_, refl)
  canonical_inner-Returns (suc fuel) ancestors (text s) w d b lt inside = (_, refl)
  canonical_inner-Returns (suc fuel) ancestors (reference i) w d b lt inside =
      let (o, at, held) = get_elem?-HoldsInside (length heap) i heap w inside in
      elim (Bool-cases (has ancestors i)) [
        | inl c ↦ rw (canonical_inner, at, c) (_, refl)
        | inr c ↦
            rw (canonical_inner, at, c)
              (object_text-Returns (canonical_inner quote heap fuel (i ∷ ancestors)) o
                (λ v p.
                  canonical_inner-Returns fuel (i ∷ ancestors) v w (c, d) (inside, b) (omega arith)
                    p)
                held)
      ]

  -- The walk ends with a text on every value whose references, and those of the heap, point into
  -- the heap, also where objects hold themselves.
  pub canonical_json-Returns :
      (v : JsValue)
      → All (HoldsInside (length heap)) heap
      → IsInside (length heap) v
      → (t : List ℕ) × (canonical_json quote heap v ≡ some t)
  unfolding canonical_json
  canonical_json-Returns v w inside =
      canonical_inner-Returns (suc (length heap)) [] v w tt tt (omega arith) inside
