-- ===== src/Common/Sorting.antt =====
-- The language's stable `sort` by a numeric key, and what a sorted prefix leaves behind.
use mathlib.Core.List.{Perm}
use mathlib.Core.List.Perm
use Prim.Native.Nat.{ℕ, zero, suc, ◌≤◌}
use mathlib.Core.Path.{◌≡◌, refl, ap, ◌∙◌}
use mathlib.Core.Bool.{false}
use mathlib.Core.Logic.{inl, inr}
use mathlib.Core.List.{List, [], ◌∷◌}
use native.Mathlib.Omega.{arith}
use test_assestment.Common.Tests.{leb, nat_eq, if◌then◌else◌, Bool-cases}
use test_assestment.Common.Lists.{All, length, All-mono, take, drop, filter, All-take, All-drop}

module _ {ℓ} {A : Type ℓ} (key : A → ℕ) where
  unfoldable pub insert_by : A → List A → List A
  insert_by x [] = x ∷ []
  insert_by x (y ∷ ys) = if leb (key x) (key y) then x ∷ y ∷ ys else y ∷ insert_by x ys

  unfoldable pub sort_by : List A → List A
  sort_by [] = []
  sort_by (x ∷ xs) = insert_by x (sort_by xs)

  abbrev pub IsSortedBy : List A → Type ℓ
  IsSortedBy [] = Unit
  IsSortedBy (x ∷ xs) = All (λ y. key x ≤ key y) xs × IsSortedBy xs

  insert_by-perm : (x : A) (xs : List A) → Perm (insert_by x xs) (x ∷ xs)
  unfolding insert_by
  insert_by-perm x [] = Perm.refl (x ∷ [])
  insert_by-perm x (y ∷ ys) = elim (Bool-cases (leb (key x) (key y))) [
    | inl b ↦ rw b (Perm.refl (x ∷ y ∷ ys))
    | inr b ↦ rw b (Perm.trans (Perm.cons y (insert_by-perm x ys)) (Perm.swap x y ys))
  ]

  pub sort_by-perm : (xs : List A) → Perm (sort_by xs) xs
  unfolding sort_by
  sort_by-perm [] = Perm.refl []
  sort_by-perm (x ∷ xs) = Perm.trans (insert_by-perm x (sort_by xs)) (Perm.cons x (sort_by-perm xs))

  pub insert_by-All {κ} :
      (P : A → Type κ) (x : A) (xs : List A) → P x → All P xs → All P (insert_by x xs)
  unfolding insert_by
  insert_by-All P x [] p h = (p, tt)
  insert_by-All P x (y ∷ ys) p (q, h) = elim (Bool-cases (leb (key x) (key y))) [
    | inl b ↦ rw b (p, (q, h))
    | inr b ↦ rw b (q, insert_by-All P x ys p h)
  ]

  pub sort_by-All {κ} : (P : A → Type κ) (xs : List A) → All P xs → All P (sort_by xs)
  unfolding sort_by
  sort_by-All P [] h = tt
  sort_by-All P (x ∷ xs) (p, h) = insert_by-All P x (sort_by xs) p (sort_by-All P xs h)

  insert_by-IsSortedBy : (x : A) (xs : List A) → IsSortedBy xs → IsSortedBy (insert_by x xs)
  unfolding insert_by
  insert_by-IsSortedBy x [] s = (tt, tt)
  insert_by-IsSortedBy x (y ∷ ys) (h, s) = elim (Bool-cases (leb (key x) (key y))) [
    | inl b ↦
        let le : key x ≤ key y = ground arith in
        rw b ((le, All-mono (λ z q. omega arith) ys h), (h, s))
    | inr b ↦
        let le : key y ≤ key x = ground arith in
        rw b (insert_by-All (λ z. key y ≤ key z) x ys le h, insert_by-IsSortedBy x ys s)
  ]

  pub sort_by-IsSortedBy : (xs : List A) → IsSortedBy (sort_by xs)
  unfolding sort_by
  sort_by-IsSortedBy [] = tt
  sort_by-IsSortedBy (x ∷ xs) = insert_by-IsSortedBy x (sort_by xs) (sort_by-IsSortedBy xs)

  pub take-IsSortedBy : (n : ℕ) (xs : List A) → IsSortedBy xs → IsSortedBy (take n xs)
  take-IsSortedBy zero xs s = tt
  take-IsSortedBy (suc n) [] s = tt
  take-IsSortedBy (suc n) (x ∷ xs) (h, s) =
      (All-take (λ y. key x ≤ key y) n xs h, take-IsSortedBy n xs s)

  -- Whoever is cut off comes no earlier than anyone that is kept.
  pub take-le-drop :
      (n : ℕ) (xs : List A)
      → IsSortedBy xs
      → All (λ x. All (λ y. key x ≤ key y) (drop n xs)) (take n xs)
  take-le-drop zero xs s = tt
  take-le-drop (suc n) [] s = tt
  take-le-drop (suc n) (x ∷ xs) (h, s) = (All-drop (λ y. key x ≤ key y) n xs h, take-le-drop n xs s)

  -- The sort is stable: entries of one key keep their order.
  insert_by-stable :
      (t : ℕ) (x : A) (xs : List A)
      → filter (λ y. nat_eq (key y) t) (insert_by x xs) ≡ filter (λ y. nat_eq (key y) t) (x ∷ xs)
  unfolding insert_by
  insert_by-stable t x [] = refl
  insert_by-stable t x (y ∷ ys) = elim (Bool-cases (leb (key x) (key y))) [
    | inl b ↦ rw b
    | inr b ↦ elim (Bool-cases (nat_eq (key y) t)) [
      | inl c ↦
          let other : nat_eq (key x) t ≡ false = ground arith in
          rw (b, insert_by-stable t x ys, c, other)
      | inr c ↦ rw (b, insert_by-stable t x ys, c)
    ]
  ]

  pub sort_by-stable :
      (t : ℕ) (xs : List A)
      → filter (λ y. nat_eq (key y) t) (sort_by xs) ≡ filter (λ y. nat_eq (key y) t) xs
  unfolding sort_by
  sort_by-stable t [] = refl
  sort_by-stable t (x ∷ xs) =
      insert_by-stable t x (sort_by xs)
      ∙ ap (λ l. if nat_eq (key x) t then x ∷ l else l) (sort_by-stable t xs)

  length-insert_by : (x : A) (xs : List A) → length (insert_by x xs) ≡ suc (length xs)
  unfolding insert_by
  length-insert_by x [] = refl
  length-insert_by x (y ∷ ys) = ground (arith, length-insert_by x ys)

  pub length-sort_by : (xs : List A) → length (sort_by xs) ≡ length xs
  unfolding sort_by
  length-sort_by [] = refl
  length-sort_by (x ∷ xs) = omega (arith, length-insert_by x (sort_by xs), length-sort_by xs)
