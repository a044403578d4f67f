-- ===== src/PostgresStorage/Checks/Rows.antt =====
-- The primary key of the table, and the rows that are told apart by it.
use test_assestment.Common.{
  ◌≡◌, refl, ap, ap₂, sym, ◌∙◌, Bool, true, false, not, ◌&&◌, List, [], ◌∷◌, ◌++◌, map, filter, all,
  arith, Bool-cases, inl, inr, eq_iff, str_eq_refl, All, All-filter, All-mono, all-All, All-all,
  all-perm,
}
use mathlib.Core.List.{Perm, Permᴰ}
use mathlib.Core.Logic.{∥∥₁_elim}
use mathlib.Core.Bool.{Bool-set}
use test_assestment.PostgresStorage.Checks.{CheckRow, same_key, is_among, upsert}

module _ {ℓ} {P : Type ℓ} where
  pub same_key_comm : (a b : CheckRow P) → same_key a b ≡ same_key b a
  unfolding same_key
  same_key_comm a b = ground (
    arith,
    eq_iff a.rule_id b.rule_id,
    eq_iff b.rule_id a.rule_id,
    eq_iff a.key_id b.key_id,
    eq_iff b.key_id a.key_id,
  )

  pub same_key_trans :
      (a b c : CheckRow P) → same_key a b ≡ true → same_key b c ≡ true → same_key a c ≡ true
  unfolding same_key
  same_key_trans a b c h k = ground (
    arith,
    eq_iff a.rule_id b.rule_id,
    eq_iff b.rule_id c.rule_id,
    eq_iff c.rule_id a.rule_id,
    eq_iff c.rule_id b.rule_id,
    eq_iff b.rule_id a.rule_id,
    eq_iff c.key_id a.key_id,
    eq_iff c.key_id b.key_id,
    eq_iff b.key_id a.key_id,
  )

  pub same_key_refl : (a : CheckRow P) → same_key a a ≡ true
  unfolding same_key
  same_key_refl a = ground (arith, str_eq_refl a.rule_id, str_eq_refl a.key_id)

  -- `PRIMARY KEY (rule_id, key_id)`
  unfoldable pub is_keyed : List (CheckRow P) → Bool
  is_keyed [] = true
  is_keyed (x ∷ xs) = all (λ y. not (same_key x y)) xs && is_keyed xs

  abbrev pub IsKeyed : List (CheckRow P) → Type 0
  IsKeyed rows = is_keyed rows ≡ true

  is_keyed-swap :
      (a b : CheckRow P) (l : List (CheckRow P)) → is_keyed (a ∷ b ∷ l) ≡ is_keyed (b ∷ a ∷ l)
  unfolding is_keyed
  is_keyed-swap a b l = ground (arith, same_key_comm a b)

  Permᴰ-is_keyed : {xs ys : List (CheckRow P)} → Permᴰ xs ys → is_keyed xs ≡ is_keyed ys
  unfolding is_keyed
  Permᴰ-is_keyed Permᴰ.nil = refl
  Permᴰ-is_keyed (Permᴰ.cons {a} e d) =
      rw (← e) (ground (arith, all-perm (λ y. not (same_key a y)) ∣ d ∣₁, Permᴰ-is_keyed d))
  Permᴰ-is_keyed (Permᴰ.swap {a} {b} {l = l} e f) =
      is_keyed-swap a b l ∙ ap₂ (λ x y. is_keyed (x ∷ y ∷ l)) f e
  Permᴰ-is_keyed (Permᴰ.trans d e) = Permᴰ-is_keyed d ∙ Permᴰ-is_keyed e

  pub perm-IsKeyed : {xs ys : List (CheckRow P)} → Perm xs ys → IsKeyed xs → IsKeyed ys
  perm-IsKeyed d h = ∥∥₁_elim d (Bool-set _ _) (λ e. sym (Permᴰ-is_keyed e) ∙ h)

  filter-is_among_from :
      (d : CheckRow P) (ds xs : List (CheckRow P))
      → All (λ x. same_key d x ≡ false) xs
      → filter (is_among (d ∷ ds)) xs ≡ filter (is_among ds) xs
  unfolding is_among
  filter-is_among_from d ds [] h = refl
  filter-is_among_from d ds (x ∷ xs) (e, h) = rw (e, filter-is_among_from d ds xs h)

  filter-is_among_nil : (xs : List (CheckRow P)) → filter (is_among []) xs ≡ []
  unfolding is_among
  filter-is_among_nil [] = refl
  filter-is_among_nil (x ∷ xs) = filter-is_among_nil xs

  -- In a table with its primary key, an update of the rows in front reaches these rows only.
  pub filter-is_among :
      (ds more : List (CheckRow P)) → IsKeyed (ds ++ more) → filter (is_among ds) (ds ++ more) ≡ ds
  unfolding is_keyed is_among
  filter-is_among [] more k = filter-is_among_nil more
  filter-is_among (d ∷ ds) more k =
      let apart = all-All (λ y. not (same_key d y)) (ds ++ more) (ground arith) in
      let apart' : All (λ x. same_key d x ≡ false) (ds ++ more) =
        All-mono (λ x e. ground arith) (ds ++ more) apart in
      rw (same_key_refl d, filter-is_among_from d ds (ds ++ more) apart')
        (ap (◌∷◌ d) (filter-is_among ds more (ground arith)))

  -- The key is kept where rows are left out, and where rows keep their keys.
  all-filter :
      (p q : CheckRow P → Bool) (xs : List (CheckRow P))
      → all p xs ≡ true
      → all p (filter q xs) ≡ true
  all-filter p q xs h = All-all p (filter q xs) (All-filter (λ x. p x ≡ true) q xs (all-All p xs h))

  pub filter-IsKeyed :
      (p : CheckRow P → Bool) (xs : List (CheckRow P)) → IsKeyed xs → IsKeyed (filter p xs)
  unfolding is_keyed
  filter-IsKeyed p [] k = refl
  filter-IsKeyed p (x ∷ xs) k =
      ground (arith, filter-IsKeyed p xs, all-filter (λ y. not (same_key x y)) p xs)

  -- A change of rows that leaves their keys.
  abbrev pub KeepsKey : (CheckRow P → CheckRow P) → Type ℓ
  KeepsKey f = (row : CheckRow P) → same_key row (f row) ≡ true

  same_key-keep :
      (f : CheckRow P → CheckRow P)
      → KeepsKey f
      → (a b : CheckRow P) → same_key (f a) (f b) ≡ same_key a b
  same_key-keep f h a b = ground (
    arith,
    h a,
    h b,
    same_key_comm a (f a),
    same_key_comm b (f b),
    same_key_trans (f a) a b,
    same_key_trans (f a) b (f b),
    same_key_trans a (f a) (f b),
    same_key_trans a (f b) b,
  )

  all-keep :
      (f : CheckRow P → CheckRow P) (x : CheckRow P) (xs : List (CheckRow P))
      → KeepsKey f
      → all (λ y. not (same_key (f x) y)) (map f xs) ≡ all (λ y. not (same_key x y)) xs
  all-keep f x [] h = refl
  all-keep f x (y ∷ ys) h = rw (same_key-keep f h x y, all-keep f x ys h)

  pub map-IsKeyed :
      (f : CheckRow P → CheckRow P) (xs : List (CheckRow P))
      → KeepsKey f
      → IsKeyed xs
      → IsKeyed (map f xs)
  unfolding is_keyed
  map-IsKeyed f [] h k = refl
  map-IsKeyed f (x ∷ xs) h k = ground (arith, all-keep f x xs h, map-IsKeyed f xs h)

  all-upsert :
      (p : CheckRow P → Bool) (new : CheckRow P) (xs : List (CheckRow P))
      → p new ≡ true
      → all p xs ≡ true
      → all p (upsert new xs) ≡ true
  unfolding upsert
  all-upsert p new [] e h = ground arith
  all-upsert p new (x ∷ xs) e h = ground (arith, all-upsert p new xs e)

  all-apart :
      (new x : CheckRow P) (xs : List (CheckRow P))
      → same_key new x ≡ true
      → all (λ y. not (same_key x y)) xs ≡ true
      → all (λ y. not (same_key new y)) xs ≡ true
  all-apart new x [] e h = refl
  all-apart new x (y ∷ ys) e h =
      ground (arith, all-apart new x ys e, same_key_trans x new y, same_key_comm x new)

  pub upsert-IsKeyed :
      (new : CheckRow P) (xs : List (CheckRow P)) → IsKeyed xs → IsKeyed (upsert new xs)
  unfolding upsert is_keyed
  upsert-IsKeyed new [] k = refl
  upsert-IsKeyed new (x ∷ xs) k = elim (Bool-cases (same_key new x)) [
    | inl b ↦ rw b (ground (arith, all-apart new x xs))
    | inr b ↦ rw b (
        ground (
          arith,
          same_key_comm new x,
          all-upsert (λ y. not (same_key x y)) new xs,
          upsert-IsKeyed new xs,
        ))
  ]
