-- ===== src/Adapter/Wrapped/Keys.antt =====
-- The cache keys of two inputs that differ in the signal and in the order of their keys.
use mathlib.Core.List.{Permᴰ}
use mathlib.Core.List.Permᴰ
use test_assestment.Common.{ℕ, ◌≤◌, ◌≡◌, refl, ap, List, [], ◌∷◌, ◌++◌, length}
use test_assestment.Canonical.{Entries, HeapObject, array, object, Heap, reference}
use test_assestment.Canonical.Keys.{times, SameButOrder, HeapsButOrder, canonical_json-eq}
use test_assestment.Adapter.Wrapped.{sans_signal, with_method, get_cache_key}

-- No object has a key twice.
abbrev pub IsKeyedObject : HeapObject → Type 0
IsKeyedObject (array items) = Unit
IsKeyedObject (object es) = (k : List ℕ) → times k es ≤ 1

abbrev pub IsKeyedHeap : Heap → Type 0
IsKeyedHeap [] = Unit
IsKeyedHeap (o ∷ os) = IsKeyedObject o × IsKeyedHeap os

SameButOrder-refl : (o : HeapObject) → IsKeyedObject o → SameButOrder o o
SameButOrder-refl (array items) h = refl
SameButOrder-refl (object es) h = (h, Permᴰ.refl es)

HeapsButOrder-concat :
    (os : Heap) (o o' : HeapObject)
    → IsKeyedHeap os
    → SameButOrder o o'
    → HeapsButOrder (os ++ o ∷ []) (os ++ o' ∷ [])
HeapsButOrder-concat [] o o' h d = (d, tt)
HeapsButOrder-concat (x ∷ os) o o' (h, g) d =
    (SameButOrder-refl x h, HeapsButOrder-concat os o o' g d)

-- Two inputs of a method that have, apart from the signal, the same keys and values in any order
-- have the same cache key, where neither the input nor an object that it can reach has a key
-- twice.
pub get_cache_key-sans_signal :
    (quote : List ℕ → List ℕ) (heap : Heap) (method : List ℕ) (input input' : Entries)
    → IsKeyedHeap heap
    → ((k : List ℕ) → times k (sans_signal input) ≤ 1)
    → Permᴰ (sans_signal input) (sans_signal input')
    → get_cache_key quote heap method input ≡ get_cache_key quote heap method input'
unfolding get_cache_key
get_cache_key-sans_signal quote heap method input input' h once d =
    let heaps =
      HeapsButOrder-concat heap (object (sans_signal input)) (object (sans_signal input')) h
        (once, d) in
    ap (with_method method) (
      canonical_json-eq quote (heap ++ object (sans_signal input) ∷ [])
        (heap ++ object (sans_signal input') ∷ []) (reference (length heap)) heaps)
