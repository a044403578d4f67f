-- ===== src/Common/Inserting.antt =====
-- Sorting with a late arrival: an entry put behind a sorted list's entries of its key or less.
use mathlib.Core.Path.{◌≡◌, refl, ap, sym, ◌∙◌}
use mathlib.Core.Bool.{Bool}
use mathlib.Core.Logic.{inl, inr}
use Prim.Native.Nat.{ℕ, ◌≤◌}
use mathlib.Core.List.{List, [], ◌∷◌, ◌++◌, map}
use native.Mathlib.Omega.{arith}
use test_assestment.Common.Tests.{leb, if◌then◌else◌, Bool-cases}
use test_assestment.Common.Lists.{
  All, All-mono, All-filter, All-append, filter, length, filter-filter, filter_congr,
}
use test_assestment.Common.Sorting.{insert_by, sort_by, IsSortedBy, sort_by-IsSortedBy}

module _ {ℓ} {A : Type ℓ} (key : A → ℕ) where
  unfoldable pub insert_after : A → List A → List A
  insert_after x [] = x ∷ []
  insert_after x (y ∷ ys) = if leb (key y) (key x) then y ∷ insert_after x ys else x ∷ y ∷ ys

  insert_by-insert_after :
      (y x : A) (zs : List A)
      → insert_by key y (insert_after x zs) ≡ insert_after x (insert_by key y zs)
  unfolding insert_by insert_after
  insert_by-insert_after y x [] = ground arith
  insert_by-insert_after y x (z ∷ zs) = ground (arith, insert_by-insert_after y x zs)

  -- The last entry of a list is sorted in behind all others of its key.
  pub sort_by-concat :
      (xs : List A) (x : A) → sort_by key (xs ++ x ∷ []) ≡ insert_after x (sort_by key xs)
  unfolding sort_by insert_by insert_after
  sort_by-concat [] x = refl
  sort_by-concat (y ∷ xs) x =
      ap (insert_by key y) (sort_by-concat xs x) ∙ insert_by-insert_after y x (sort_by key xs)

  insert_by_of_le :
      (x : A) (xs : List A) → All (λ y. key x ≤ key y) xs → insert_by key x xs ≡ x ∷ xs
  unfolding insert_by
  insert_by_of_le x [] h = refl
  insert_by_of_le x (y ∷ ys) (p, h) = ground arith

  pub sort_by_of_IsSortedBy : (xs : List A) → IsSortedBy key xs → sort_by key xs ≡ xs
  unfolding sort_by
  sort_by_of_IsSortedBy [] s = refl
  sort_by_of_IsSortedBy (x ∷ xs) (h, s) =
      ap (insert_by key x) (sort_by_of_IsSortedBy xs s) ∙ insert_by_of_le x xs h

  module _ (p : A → Bool) where
    pub filter-IsSortedBy : (xs : List A) → IsSortedBy key xs → IsSortedBy key (filter p xs)
    filter-IsSortedBy [] s = tt
    filter-IsSortedBy (x ∷ xs) (h, s) =
        let kept = All-filter (λ y. key x ≤ key y) p xs h in ground (arith, filter-IsSortedBy xs s)

    filter-insert_by :
        (x : A) (xs : List A)
        → IsSortedBy key xs
        → filter p (insert_by key x xs)
          ≡ (if p x then insert_by key x (filter p xs) else filter p xs)
    unfolding insert_by
    filter-insert_by x [] s = refl
    filter-insert_by x (y ∷ ys) (h, s) = elim (Bool-cases (leb (key x) (key y))) [
      | inr b ↦ ground (arith, filter-insert_by x ys s)
      | inl b ↦
          let le : key x ≤ key y = ground arith in
          let all : All (λ z. key x ≤ key z) (y ∷ ys) = (le, All-mono (λ z q. omega arith) ys h) in
          let later = All-filter (λ z. key x ≤ key z) p (y ∷ ys) all in
          rw (b, insert_by_of_le x (filter p (y ∷ ys)) later)
    ]

    -- Filtering before a sort is filtering after it.
    pub filter-sort_by : (xs : List A) → filter p (sort_by key xs) ≡ sort_by key (filter p xs)
    unfolding sort_by
    filter-sort_by [] = refl
    filter-sort_by (x ∷ xs) =
        filter-insert_by x (sort_by key xs) (sort_by-IsSortedBy key xs) ∙ elim (Bool-cases (p x)) [
          | inl b ↦ rw b (ap (insert_by key x) (filter-sort_by xs))
          | inr b ↦ rw b (filter-sort_by xs)
        ]

module _ {ℓ κ} {A : Type ℓ} {B : Type κ} (f : A → B) (key : A → ℕ) (key' : B → ℕ)
    (same : (a : A) → key' (f a) ≡ key a) where
  pub map-insert_after :
      (x : A) (xs : List A) → map f (insert_after key x xs) ≡ insert_after key' (f x) (map f xs)
  unfolding insert_after
  map-insert_after x [] = refl
  map-insert_after x (y ∷ ys) = elim (Bool-cases (leb (key y) (key x))) [
    | inl b ↦ rw (same y, same x, b) (ap (◌∷◌ (f y)) (map-insert_after x ys))
    | inr b ↦ rw (same y, same x, b)
  ]

module _ {ℓ κ} {A : Type ℓ} {B : Type κ} (f : A → B) where
  pub filter-map :
      (p : B → Bool) (xs : List A) → filter p (map f xs) ≡ map f (filter (λ x. p (f x)) xs)
  filter-map p [] = refl
  filter-map p (x ∷ xs) = elim (Bool-cases (p (f x))) [
    | inl b ↦ rw b (ap (◌∷◌ (f x)) (filter-map p xs))
    | inr b ↦ rw b (filter-map p xs)
  ]

  pub length-map : (xs : List A) → length (map f xs) ≡ length xs
  length-map [] = refl
  length-map (x ∷ xs) = omega (arith, length-map xs)

pub filter_comm {ℓ} :
    {A : Type ℓ} (p q : A → Bool) (xs : List A) → filter p (filter q xs) ≡ filter q (filter p xs)
filter_comm p q xs =
    filter-filter p q xs ∙ filter_congr _ _ (λ x. ground arith) xs ∙ sym (filter-filter q p xs)

pub IsSortedBy-concat {ℓ} :
    {A : Type ℓ} (key : A → ℕ) (xs : List A) (x : A)
    → All (λ y. key y ≤ key x) xs
    → IsSortedBy key xs
    → IsSortedBy key (xs ++ x ∷ [])
IsSortedBy-concat key [] x h s = (tt, tt)
IsSortedBy-concat key (y ∷ ys) x (p, h) (q, s) =
    (All-append (λ z. key y ≤ key z) ys _ q (p, tt), IsSortedBy-concat key ys x h s)
