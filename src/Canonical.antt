-- ===== src/Canonical.antt =====
-- canonicalJson of engine/src/engine/utility/canonical.ts. Objects and arrays stand in a heap, for
-- they may be shared and hold themselves; a text is the list of its code units.
pub mod Termination
pub mod Order
pub mod Keys
mod Tests
use test_assestment.Common.{
  ℕ, zero, suc, Bool, true, false, ◌&&◌, ◌||◌, Option, none, some, get_or, List, [], ◌∷◌, ◌++◌, map,
  String, nat_eq, ltb, if◌then◌else◌, length, get_elem?, codes, codes_eq, decimal,
}

pub data JsValue : Type 0 where
  undefined null function : JsValue
  boolean : Bool → JsValue
  number : ℕ → JsValue
  text : List ℕ → JsValue
  -- An array or an object, by its place in the heap.
  reference : ℕ → JsValue

abbrev pub Entries : Type 0
Entries = List (List ℕ × JsValue)

pub data HeapObject : Type 0 where
  array : List JsValue → HeapObject
  object : Entries → HeapObject

abbrev pub Heap : Type 0
Heap = List HeapObject

-- `ancestors.has(v)`
unfoldable pub has : List ℕ → ℕ → Bool
has [] i = false
has (a ∷ ancestors) i = nat_eq a i || has ancestors i

-- The order of `sort()`: by code units.
unfoldable pub key_le : List ℕ → List ℕ → Bool
key_le [] t = true
key_le (c ∷ s) [] = false
key_le (c ∷ s) (d ∷ t) = ltb c d || nat_eq c d && key_le s t

unfoldable pub insert_key : List ℕ → List (List ℕ) → List (List ℕ)
insert_key k [] = k ∷ []
insert_key k (j ∷ ks) = if key_le k j then k ∷ j ∷ ks else j ∷ insert_key k ks

unfoldable pub sort_keys : List (List ℕ) → List (List ℕ)
unfolding insert_key key_le
sort_keys [] = []
sort_keys (k ∷ ks) = insert_key k (sort_keys ks)

-- `o[k]`
unfoldable pub get_entry : List ℕ → Entries → JsValue
get_entry k [] = undefined
get_entry k ((j, v) ∷ es) = if codes_eq j k then v else get_entry k es

-- `parts.join(',')`
unfoldable pub join : List (List ℕ) → List ℕ
join [] = []
join (p ∷ []) = p
join (p ∷ q ∷ parts) = p ++ (codes "," ++ join (q ∷ parts))

module _ {ℓ κ} {A : Type ℓ} {B : Type κ} (f : A → Option B) where
  -- `xs.map(…)` by a call that may not return.
  unfoldable pub map_each : List A → Option (List B)
  map_each [] = some []
  map_each (x ∷ xs) = elim (f x) [
    | none ↦ none
    | some y ↦ elim (map_each xs) [ none ↦ none | some ys ↦ some (y ∷ ys) ]
  ]

abbrev pub enclose : String → String → Option (List (List ℕ)) → Option (List ℕ)
enclose open_text close_text none = none
enclose open_text close_text (some parts) =
    some (codes open_text ++ (join parts ++ codes close_text))

-- `JSON.stringify` of a text is an argument.
module _ (quote : List ℕ → List ℕ) (heap : Heap) where
  -- `JSON.stringify(k) + ':' + …`
  abbrev pub entry_text : List ℕ → Option (List ℕ) → Option (List ℕ)
  entry_text k none = none
  entry_text k (some t) = some (quote k ++ (codes ":" ++ t))

  -- What stands in an object, by the text of what it holds.
  unfoldable pub object_text : (JsValue → Option (List ℕ)) → HeapObject → Option (List ℕ)
  unfolding join map_each sort_keys get_entry
  object_text inner (array items) = enclose "[" "]" (map_each inner items)
  object_text inner (object es) =
      enclose "{" "}"
        (map_each (λ k. entry_text k (inner (get_entry k es))) (sort_keys (map (λ e. e.0) es)))

  -- `none` is no fuel, or a place outside of the heap.
  unfoldable pub canonical_inner : ℕ → List ℕ → JsValue → Option (List ℕ)
  unfolding object_text has
  canonical_inner zero ancestors v = none
  canonical_inner (suc fuel) ancestors undefined = some (codes "null")
  canonical_inner (suc fuel) ancestors null = some (codes "null")
  canonical_inner (suc fuel) ancestors function = some (codes "\"<fn>\"")
  canonical_inner (suc fuel) ancestors (boolean true) = some (codes "true")
  canonical_inner (suc fuel) ancestors (boolean false) = some (codes "false")
  canonical_inner (suc fuel) ancestors (number n) = some (decimal n)
  canonical_inner (suc fuel) ancestors (text s) = some (quote s)
  canonical_inner (suc fuel) ancestors (reference i) = elim (get_elem? heap i) [
    | none ↦ none
    | some o ↦
        let inside = object_text (canonical_inner fuel (i ∷ ancestors)) o in
        if has ancestors i then some (codes "\"<cycle>\"") else inside
  ]

  -- No chain of distinct ancestors is longer than the heap.
  unfoldable pub canonical_json : JsValue → Option (List ℕ)
  unfolding canonical_inner
  canonical_json v = canonical_inner (suc (length heap)) [] v
