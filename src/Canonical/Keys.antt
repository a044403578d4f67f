-- ===== src/Canonical/Keys.antt =====
-- canonicalJson on heaps that differ in the order in which keys were set.
use mathlib.Core.List.{Permᴰ}
use mathlib.Core.List
use test_assestment.Common.{
  ℕ, zero, suc, ◌≤◌, ◌≡◌, refl, ap, ap₂, ◌∙◌, ◌⊎◌, true, false, Option, none, some, List, [], ◌∷◌,
  length, get_elem?, filter, fun_ext, arith, Bool-cases, inl, inr, codes_eq,
}
use test_assestment.Canonical.{
  JsValue, undefined, null, function, boolean, number, text, reference, Entries, HeapObject, array,
  object, Heap, get_entry, map_each, entry_text, object_text, canonical_inner, canonical_json,
  enclose,
}
use test_assestment.Canonical.Order.{Permᴰ-sort_keys}

-- How often a key is set.
abbrev pub times : List ℕ → Entries → ℕ
times k es = length (filter (λ e. codes_eq e.0 k) es)

-- The same items, or the same keys and values in another order.
abbrev pub SameButOrder : HeapObject → HeapObject → Type 0
SameButOrder (array items) (array items') = items ≡ items'
SameButOrder (array items) (object es) = ⊥
SameButOrder (object es) (array items) = ⊥
SameButOrder (object es) (object es') = ((k : List ℕ) → times k es ≤ 1) × Permᴰ es es'

abbrev pub HeapsButOrder : Heap → Heap → Type 0
HeapsButOrder [] [] = Unit
HeapsButOrder [] (o ∷ os) = ⊥
HeapsButOrder (o ∷ os) [] = ⊥
HeapsButOrder (o ∷ os) (o' ∷ os') = SameButOrder o o' × HeapsButOrder os os'

Permᴰ-times : (k : List ℕ) {es es' : Entries} → Permᴰ es es' → times k es ≡ times k es'
Permᴰ-times k Permᴰ.nil = refl
Permᴰ-times k (Permᴰ.cons {a} {l₁ = es} e d) = rw (← e) (elim (Bool-cases (codes_eq a.0 k)) [
  | inl b ↦ rw b (ap suc (Permᴰ-times k d))
  | inr b ↦ rw b (Permᴰ-times k d)
])
Permᴰ-times k (Permᴰ.swap {a} {b} {l = l} e f) = rw (← e, ← f) (ground arith)
Permᴰ-times k (Permᴰ.trans d e) = Permᴰ-times k d ∙ Permᴰ-times k e

fewer : (k : List ℕ) (e : List ℕ × JsValue) (es : Entries) → times k (e ∷ es) ≤ 1 → times k es ≤ 1
fewer k e es h = ground arith

Permᴰ-get_entry :
    (k : List ℕ) {es es' : Entries}
    → Permᴰ es es'
    → times k es ≤ 1
    → get_entry k es ≡ get_entry k es'
unfolding get_entry
Permᴰ-get_entry k Permᴰ.nil h = refl
Permᴰ-get_entry k (Permᴰ.cons {a} e d) h = rw (← e) (elim (Bool-cases (codes_eq a.0 k)) [
  | inl b ↦ rw b
  | inr b ↦ rw b (Permᴰ-get_entry k d (fewer k a _ h))
])
Permᴰ-get_entry k (Permᴰ.swap {a} {b} {l = l} e f) h = rw (← e, ← f) (ground arith)
Permᴰ-get_entry k (Permᴰ.trans d e) h =
    Permᴰ-get_entry k d h ∙ Permᴰ-get_entry k e (rw (← Permᴰ-times k d) h)

abbrev OneAt : Heap → Heap → ℕ → Type 0
OneAt os os' i =
    (o o' : HeapObject) × (get_elem? os i ≡ some o)
    × (get_elem? os' i ≡ some o')
    × SameButOrder o o'

get_elem?-HeapsButOrder :
    (i : ℕ) (os os' : Heap)
    → HeapsButOrder os os'
    → (get_elem? os i ≡ none) × (get_elem? os' i ≡ none) ⊎ OneAt os os' i
get_elem?-HeapsButOrder i [] [] h = inl (refl, refl)
get_elem?-HeapsButOrder i [] (o ∷ os) h = absurd h
get_elem?-HeapsButOrder i (o ∷ os) [] h = absurd h
get_elem?-HeapsButOrder zero (o ∷ os) (o' ∷ os') (p, h) = inr (o, o', refl, refl, p)
get_elem?-HeapsButOrder (suc i) (o ∷ os) (o' ∷ os') (p, h) = get_elem?-HeapsButOrder i os os' h

length-HeapsButOrder : (os os' : Heap) → HeapsButOrder os os' → length os ≡ length os'
length-HeapsButOrder [] [] h = refl
length-HeapsButOrder [] (o ∷ os) h = absurd h
length-HeapsButOrder (o ∷ os) [] h = absurd h
length-HeapsButOrder (o ∷ os) (o' ∷ os') (p, h) = ap suc (length-HeapsButOrder os os' h)

module _ (quote : List ℕ → List ℕ) (heap heap' : Heap) where
  object_text-eq :
      {inner inner' : JsValue → Option (List ℕ)} (o o' : HeapObject)
      → inner ≡ inner'
      → SameButOrder o o'
      → object_text quote heap inner o ≡ object_text quote heap' inner' o'
  unfolding object_text
  object_text-eq (array items) (array items') c e =
      ap₂ (λ (f : JsValue → Option (List ℕ)) xs. enclose "[" "]" (map_each f xs)) c e
  object_text-eq (array items) (object es) c h = absurd h
  object_text-eq (object es) (array items) c h = absurd h
  object_text-eq {inner} {inner'} (object es) (object es') c (once, d) =
      let keys = Permᴰ-sort_keys (List.Permᴰ.map (λ e. e.0) d) in
      let values : (λ k. inner (get_entry k es)) ≡ (λ k. inner' (get_entry k es')) =
        fun_ext
          (λ k. ap₂ (λ (f : JsValue → Option (List ℕ)) v. f v) c (Permᴰ-get_entry k d (once k))) in
      ap₂
        (λ ks (f : List ℕ → Option (List ℕ)).
          enclose "{" "}" (map_each (λ k. entry_text quote heap k (f k)) ks))
        keys values

  canonical_inner-eq :
      (fuel : ℕ) (ancestors : List ℕ) (v : JsValue)
      → HeapsButOrder heap heap'
      → canonical_inner quote heap fuel ancestors v ≡ canonical_inner quote heap' fuel ancestors v
  unfolding canonical_inner
  canonical_inner-eq zero ancestors v h = refl
  canonical_inner-eq (suc fuel) ancestors undefined h = refl
  canonical_inner-eq (suc fuel) ancestors null h = refl
  canonical_inner-eq (suc fuel) ancestors function h = refl
  canonical_inner-eq (suc fuel) ancestors (boolean true) h = refl
  canonical_inner-eq (suc fuel) ancestors (boolean false) h = refl
  canonical_inner-eq (suc fuel) ancestors (number n) h = refl
  canonical_inner-eq (suc fuel) ancestors (text s) h = refl
  canonical_inner-eq (suc fuel) ancestors (reference i) h =
      elim (get_elem?-HeapsButOrder i heap heap' h) [
        | inl (e, e') ↦ rw (canonical_inner, e, e')
        | inr (o, o', e, e', p) ↦
            let same = fun_ext (λ v. canonical_inner-eq fuel (i ∷ ancestors) v h) in
            rw (canonical_inner, e, e', object_text-eq o o' same p)
      ]

  -- Two heaps whose arrays are the same and whose objects have the same keys and values, each key
  -- once, in any order give the same text for each value.
  pub canonical_json-eq :
      (v : JsValue)
      → HeapsButOrder heap heap'
      → canonical_json quote heap v ≡ canonical_json quote heap' v
  unfolding canonical_json
  canonical_json-eq v h =
      rw (← length-HeapsButOrder heap heap' h) (canonical_inner-eq (suc (length heap)) [] v h)
