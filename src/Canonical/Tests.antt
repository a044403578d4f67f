-- ===== src/Canonical/Tests.antt =====
-- Texts of concrete values, and the theorems at them.
use mathlib.Core.List.{Permᴰ}
use test_assestment.Common.{
  ℕ, ◌≡◌, ◌≤◌, refl, true, some, List, [], ◌∷◌, ◌++◌, arith, codes, codes_eq, decimal, digits_from,
}
use test_assestment.Canonical.{
  null, boolean, number, text, reference, array, object, Heap, canonical_json,
}
use test_assestment.Canonical.Termination.{canonical_json-Returns}
use test_assestment.Canonical.Keys.{HeapsButOrder, times, canonical_json-eq}

abbrev in_quotes : List ℕ → List ℕ
in_quotes s = codes "\"" ++ (s ++ codes "\"")

-- An object with two keys, an array inside it, and the object itself inside the array.
abbrev knot : Heap
knot =
    object ((codes "b", reference 1) ∷ (codes "a", boolean true) ∷ [])
    ∷ array (number 10 ∷ null ∷ reference 0 ∷ [])
    ∷ []

abbrev other_knot : Heap
other_knot =
    object ((codes "a", boolean true) ∷ (codes "b", reference 1) ∷ [])
    ∷ array (number 10 ∷ null ∷ reference 0 ∷ [])
    ∷ []

knot_text :
    canonical_json in_quotes knot (reference 0)
    ≡ some (codes "{\"a\":true,\"b\":[10,null,\"<cycle>\"]}")
unfolding canonical_json codes_eq decimal digits_from
knot_text = refl

-- A value that two places share is no cycle.
shared_text :
    canonical_json in_quotes
      (array (reference 1 ∷ reference 1 ∷ []) ∷ object ((codes "k", text (codes "v")) ∷ []) ∷ [])
      (reference 0)
    ≡ some (codes "[{\"k\":\"v\"},{\"k\":\"v\"}]")
unfolding canonical_json codes_eq
shared_text = refl

canonical_json-Returns_example :
    (t : List ℕ) × (canonical_json in_quotes knot (reference 0) ≡ some t)
canonical_json-Returns_example =
    canonical_json-Returns in_quotes knot (reference 0)
      ((omega arith, (tt, tt)), ((tt, (tt, (omega arith, tt))), tt)) (omega arith)

times_knot : (k : List ℕ) → times k ((codes "b", reference 1) ∷ (codes "a", boolean true) ∷ []) ≤ 1
unfolding codes_eq
times_knot [] = omega arith
times_knot (c ∷ k) = ground arith

knots : HeapsButOrder knot other_knot
knots = ((times_knot, Permᴰ.swap refl refl), (refl, tt))

canonical_json-eq_example :
    canonical_json in_quotes knot (reference 0) ≡ canonical_json in_quotes other_knot (reference 0)
canonical_json-eq_example = canonical_json-eq in_quotes knot other_knot (reference 0) knots
