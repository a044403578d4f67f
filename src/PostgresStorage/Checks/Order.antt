-- ===== src/PostgresStorage/Checks/Order.antt =====
-- The rows that a claim reaches: the due ones in the order of the query, cut off at the limit.
use test_assestment.Common.{
  ℕ, ◌≤◌, String, ◌≡◌, refl, Bool, true, false, List, [], ◌∷◌, ◌++◌, drop, filter, arith,
  Bool-cases, inl, inr, length, min, take-append-drop, length-take, take-le-drop, All, All-mono,
  All-take, suc, IsSortedBy,
}
use mathlib.Core.List.{Perm}
use mathlib.Core.List.Perm
use test_assestment.PostgresStorage.Checks.{CheckRow, in_order, insert_row, order_rows, is_due, due}

module _ {ℓ} {P : Type ℓ} (text_lt : String → String → Bool) where
  abbrev time : CheckRow P → ℕ
  time row = row.run_at_ms

  insert_row-perm :
      (x : CheckRow P) (xs : List (CheckRow P)) → Perm (insert_row text_lt x xs) (x ∷ xs)
  unfolding insert_row
  insert_row-perm x [] = Perm.refl (x ∷ [])
  insert_row-perm x (y ∷ ys) = elim (Bool-cases (in_order text_lt x y)) [
    | inl b ↦ rw b (Perm.refl (x ∷ y ∷ ys))
    | inr b ↦ rw b (Perm.trans (Perm.cons y (insert_row-perm x ys)) (Perm.swap x y ys))
  ]

  order_rows-perm : (xs : List (CheckRow P)) → Perm (order_rows text_lt xs) xs
  unfolding order_rows
  order_rows-perm [] = Perm.refl []
  order_rows-perm (x ∷ xs) =
      Perm.trans (insert_row-perm x (order_rows text_lt xs)) (Perm.cons x (order_rows-perm xs))

  insert_row-All {κ} :
      (Q : CheckRow P → Type κ) (x : CheckRow P) (xs : List (CheckRow P))
      → Q x
      → All Q xs
      → All Q (insert_row text_lt x xs)
  unfolding insert_row
  insert_row-All Q x [] p h = (p, tt)
  insert_row-All Q x (y ∷ ys) p (q, h) = elim (Bool-cases (in_order text_lt x y)) [
    | inl b ↦ rw b (p, (q, h))
    | inr b ↦ rw b (q, insert_row-All Q x ys p h)
  ]

  order_rows-All {κ} :
      (Q : CheckRow P → Type κ) (xs : List (CheckRow P)) → All Q xs → All Q (order_rows text_lt xs)
  unfolding order_rows
  order_rows-All Q [] h = tt
  order_rows-All Q (x ∷ xs) (p, h) =
      insert_row-All Q x (order_rows text_lt xs) p (order_rows-All Q xs h)

  in_order-le : (x y : CheckRow P) → in_order text_lt x y ≡ true → time x ≤ time y
  unfolding in_order
  in_order-le x y h = ground arith

  in_order-ge : (x y : CheckRow P) → in_order text_lt x y ≡ false → time y ≤ time x
  unfolding in_order
  in_order-ge x y h = ground arith

  insert_row-IsSortedBy :
      (x : CheckRow P) (xs : List (CheckRow P))
      → IsSortedBy time xs
      → IsSortedBy time (insert_row text_lt x xs)
  unfolding insert_row
  insert_row-IsSortedBy x [] s = (tt, tt)
  insert_row-IsSortedBy x (y ∷ ys) (h, s) = elim (Bool-cases (in_order text_lt x y)) [
    | inl b ↦ let le = in_order-le x y b in rw b ((le, All-mono (λ z q. omega arith) ys h), (h, s))
    | inr b ↦ rw b (
      insert_row-All (λ z. time y ≤ time z) x ys (in_order-ge x y b) h,
      insert_row-IsSortedBy x ys s,
    )
  ]

  order_rows-IsSortedBy : (xs : List (CheckRow P)) → IsSortedBy time (order_rows text_lt xs)
  unfolding order_rows
  order_rows-IsSortedBy [] = tt
  order_rows-IsSortedBy (x ∷ xs) =
      insert_row-IsSortedBy x (order_rows text_lt xs) (order_rows-IsSortedBy xs)

  length-insert_row :
      (x : CheckRow P) (xs : List (CheckRow P)) → length (insert_row text_lt x xs) ≡ suc (length xs)
  unfolding insert_row
  length-insert_row x [] = refl
  length-insert_row x (y ∷ ys) = ground (arith, length-insert_row x ys)

  length-order_rows : (xs : List (CheckRow P)) → length (order_rows text_lt xs) ≡ length xs
  unfolding order_rows
  length-order_rows [] = refl
  length-order_rows (x ∷ xs) =
      omega (arith, length-insert_row x (order_rows text_lt xs), length-order_rows xs)

  -- The rows that the limit leaves are due too, and none of them runs earlier.
  pub due_lem :
      (now limit : ℕ) (rows : List (CheckRow P))
      → (left : List (CheckRow P)) × Perm
          (due text_lt now limit rows ++ left)
          (filter (is_due now) rows)
        × All (λ d. All (λ l. d.run_at_ms ≤ l.run_at_ms) left) (due text_lt now limit rows)
        × (length (due text_lt now limit rows) ≡ min limit (length (filter (is_due now) rows)))
  unfolding due
  due_lem now limit rows =
      let sorted = order_rows text_lt (filter (is_due now) rows) in
      (
        drop limit sorted,
        rw take-append-drop (order_rows-perm (filter (is_due now) rows)),
        take-le-drop time limit sorted (order_rows-IsSortedBy (filter (is_due now) rows)),
        rw (length-take, length-order_rows),
      )

  pub due-All {κ} :
      (Q : CheckRow P → Type κ) (now limit : ℕ) (rows : List (CheckRow P))
      → All Q (filter (is_due now) rows)
      → All Q (due text_lt now limit rows)
  unfolding due
  due-All Q now limit rows h = All-take Q limit _ (order_rows-All Q (filter (is_due now) rows) h)
