-- ===== src/Canonical/Order.antt =====
-- The order of the keys that sort() uses, in engine/src/engine/utility/canonical.ts.
use mathlib.Core.List.{Permᴰ}
use test_assestment.Common.{
  ℕ, ◌≡◌, refl, sym, ◌∙◌, true, false, List, [], ◌∷◌, arith, inl, inr, Bool-cases,
}
use test_assestment.Canonical.{key_le, insert_key, sort_keys}

key_le_total : (s t : List ℕ) → key_le s t ≡ false → key_le t s ≡ true
unfolding key_le
key_le_total [] t h = ground arith
key_le_total (c ∷ s) [] h = refl
key_le_total (c ∷ s) (d ∷ t) h = ground (arith, key_le_total s t)

key_le_trans : (s t u : List ℕ) → key_le s t ≡ true → key_le t u ≡ true → key_le s u ≡ true
unfolding key_le
key_le_trans [] t u h g = refl
key_le_trans (c ∷ s) [] u h g = ground arith
key_le_trans (c ∷ s) (d ∷ t) [] h g = ground arith
key_le_trans (c ∷ s) (d ∷ t) (e ∷ u) h g = ground (arith, key_le_trans s t u)

key_le_antisymm : (s t : List ℕ) → key_le s t ≡ true → key_le t s ≡ true → s ≡ t
unfolding key_le
key_le_antisymm [] [] h g = refl
key_le_antisymm [] (d ∷ t) h g = ground arith
key_le_antisymm (c ∷ s) [] h g = ground arith
key_le_antisymm (c ∷ s) (d ∷ t) h g =
    let e : c ≡ d = ground arith in
    let rest = key_le_antisymm s t (ground arith) (ground arith) in cc (e, rest)

insert_key_comm_of_lt :
    (a b : List ℕ) (xs : List (List ℕ))
    → key_le a b ≡ true
    → key_le b a ≡ false
    → insert_key a (insert_key b xs) ≡ insert_key b (insert_key a xs)
unfolding insert_key
insert_key_comm_of_lt a b [] h g = rw (h, g)
insert_key_comm_of_lt a b (x ∷ xs) h g = elim (Bool-cases (key_le b x)) [
  | inl c ↦ rw (c, key_le_trans a b x h c, h, g, c) refl
  | inr c ↦ elim (Bool-cases (key_le a x)) [
    | inl d ↦ rw (c, d, g, c)
    | inr d ↦ rw (c, d, c, insert_key_comm_of_lt a b xs h g)
  ]
]

insert_key_comm :
    (a b : List ℕ) (xs : List (List ℕ))
    → insert_key a (insert_key b xs) ≡ insert_key b (insert_key a xs)
insert_key_comm a b xs = elim (Bool-cases (key_le a b)) [
  | inr h ↦ sym (insert_key_comm_of_lt b a xs (key_le_total a b h) h)
  | inl h ↦ elim (Bool-cases (key_le b a)) [
    | inr g ↦ insert_key_comm_of_lt a b xs h g
    | inl g ↦ rw (key_le_antisymm a b h g)
  ]
]

pub Permᴰ-sort_keys : {ks js : List (List ℕ)} → Permᴰ ks js → sort_keys ks ≡ sort_keys js
unfolding sort_keys
Permᴰ-sort_keys Permᴰ.nil = refl
Permᴰ-sort_keys (Permᴰ.cons e d) = cc (e, Permᴰ-sort_keys d)
Permᴰ-sort_keys (Permᴰ.swap {a} {b} {l = l} e f) = rw (← e, ← f) (insert_key_comm a b (sort_keys l))
Permᴰ-sort_keys (Permᴰ.trans d e) = Permᴰ-sort_keys d ∙ Permᴰ-sort_keys e
