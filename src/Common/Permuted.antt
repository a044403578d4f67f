-- ===== src/Common/Permuted.antt =====
-- Boolean tests and filters on a list in another order.
use mathlib.Core.Path.{◌≡◌, refl, ap, sym, ◌∙◌}
use mathlib.Core.Bool.{Bool, true, false, not, Bool-set}
use mathlib.Core.Logic.{inl, inr, ∥∥₁_elim}
use mathlib.Core.List.{List, [], ◌∷◌, ◌++◌, Perm, Permᴰ, Perm-prop, perm_middle}
use mathlib.Core.List.Perm
use native.Mathlib.Omega.{arith}
use test_assestment.Common.Tests.{Bool-cases}
use test_assestment.Common.Lists.{All, all, filter}

module _ {ℓ} {A : Type ℓ} where
  pub all-All : (p : A → Bool) (xs : List A) → all p xs ≡ true → All (λ x. p x ≡ true) xs
  all-All p [] h = tt
  all-All p (x ∷ xs) h = (ground arith, all-All p xs (ground arith))

  pub All-all : (p : A → Bool) (xs : List A) → All (λ x. p x ≡ true) xs → all p xs ≡ true
  All-all p [] h = refl
  All-all p (x ∷ xs) (e, h) = ground (arith, All-all p xs h)

  module _ (p : A → Bool) where
    Permᴰ-all : {xs ys : List A} → Permᴰ xs ys → all p xs ≡ all p ys
    Permᴰ-all Permᴰ.nil = refl
    Permᴰ-all (Permᴰ.cons e d) = cc (ap p e, Permᴰ-all d)
    Permᴰ-all (Permᴰ.swap {a} {b} {l = l} e f) = rw (← e, ← f) (ground arith)
    Permᴰ-all (Permᴰ.trans d e) = Permᴰ-all d ∙ Permᴰ-all e

    pub all-perm : {xs ys : List A} → Perm xs ys → all p xs ≡ all p ys
    all-perm d = ∥∥₁_elim d (Bool-set _ _) Permᴰ-all

    filter-cons_perm :
        (x : A) (xs ys : List A)
        → Perm (filter p xs) (filter p ys)
        → Perm (filter p (x ∷ xs)) (filter p (x ∷ ys))
    filter-cons_perm x xs ys d = elim (Bool-cases (p x)) [
      | inl b ↦ rw b (Perm.cons x d)
      | inr b ↦ rw b d
    ]

    filter-swap_perm :
        (x y : A) (xs : List A) → Perm (filter p (y ∷ x ∷ xs)) (filter p (x ∷ y ∷ xs))
    filter-swap_perm x y xs = elim (Bool-cases (p x)) [
      | inl b ↦ elim (Bool-cases (p y)) [
        | inl c ↦ rw (b, c) (Perm.swap x y (filter p xs))
        | inr c ↦ rw (b, c) (Perm.refl _)
      ]
      | inr b ↦ elim (Bool-cases (p y)) [
        | inl c ↦ rw (b, c) (Perm.refl _)
        | inr c ↦ rw (b, c) (Perm.refl _)
      ]
    ]

    Permᴰ-filter : {xs ys : List A} → Permᴰ xs ys → Perm (filter p xs) (filter p ys)
    Permᴰ-filter Permᴰ.nil = Perm.refl []
    Permᴰ-filter (Permᴰ.cons {a} e d) = rw (← e) (filter-cons_perm a _ _ (Permᴰ-filter d))
    Permᴰ-filter (Permᴰ.swap {a} {b} {l = l} e f) = rw (← e, ← f) (filter-swap_perm b a l)
    Permᴰ-filter (Permᴰ.trans d e) = Perm.trans (Permᴰ-filter d) (Permᴰ-filter e)

    pub filter-perm : {xs ys : List A} → Perm xs ys → Perm (filter p xs) (filter p ys)
    filter-perm d = ∥∥₁_elim d Perm-prop Permᴰ-filter

    -- What passes a test and what does not make up the list.
    pub filter_split_perm : (xs : List A) → Perm xs (filter p xs ++ filter (λ x. not (p x)) xs)
    filter_split_perm [] = Perm.refl []
    filter_split_perm (x ∷ xs) = elim (Bool-cases (p x)) [
      | inl b ↦ rw b (Perm.cons x (filter_split_perm xs))
      | inr b ↦ rw b (
          Perm.trans (Perm.cons x (filter_split_perm xs)) (Perm.symm (perm_middle (filter p xs) _)))
    ]

    pub filter_of_none : (xs : List A) → All (λ x. p x ≡ false) xs → filter p xs ≡ []
    filter_of_none [] h = refl
    filter_of_none (x ∷ xs) (e, h) = rw e (filter_of_none xs h)

  pub All-perm :
      (p : A → Bool) {xs ys : List A}
      → Perm xs ys
      → All (λ x. p x ≡ true) xs
      → All (λ x. p x ≡ true) ys
  All-perm p {xs} {ys} d h = all-All p ys (sym (all-perm p d) ∙ All-all p xs h)
