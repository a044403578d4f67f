-- ===== src/PostgresStorage/Checks/Claims.antt =====
-- What a claim hands out, and what it keeps from the next one.
use test_assestment.Common.{
  ℕ, ◌≤◌, String, ◌≡◌, subst, Bool, false, not, zero, suc, List, [], ◌++◌, map, leb, arith, length,
  min, filter, All, sort_by-perm, sort_by-IsSortedBy, IsSortedBy, filter-perm, filter_split_perm,
}
use mathlib.Core.List.{Perm, append_assoc}
use mathlib.Core.List.Perm
use test_assestment.PostgresStorage.Checks.{
  CheckRow, is_due, due, is_among, claim, to_scheduled_check,
}
use test_assestment.PostgresStorage.Checks.Rows.{IsKeyed, perm-IsKeyed, filter-is_among}
use test_assestment.PostgresStorage.Checks.Order.{due_lem}

module _ {ℓ} {P : Type ℓ} (text_lt : String → String → Bool)
    (returned : List (CheckRow P) → List (CheckRow P))
    (all_rows : (rows : List (CheckRow P)) → Perm (returned rows) rows) where
  append_assoc_perm : (xs ys zs : List (CheckRow P)) → Perm ((xs ++ ys) ++ zs) (xs ++ (ys ++ zs))
  append_assoc_perm xs ys zs = rw append_assoc (Perm.refl _)

  -- The update reaches the rows that the query has chosen, and no other.
  is_among-due :
      (now limit : ℕ) (rows : List (CheckRow P))
      → IsKeyed rows
      → Perm (filter (is_among (due text_lt now limit rows)) rows) (due text_lt now limit rows)
  is_among-due now limit rows k =
      let ds = due text_lt now limit rows in
      let (left, split, _, _) = due_lem text_lt now limit rows in
      let more = left ++ filter (λ row. not (is_due now row)) rows in
      let whole : Perm rows (ds ++ more) =
        Perm.trans (filter_split_perm (is_due now) rows)
          (Perm.trans (Perm.append_right _ (Perm.symm split)) (append_assoc_perm ds left _)) in
      subst (λ l. Perm (filter (is_among ds) rows) l)
        (filter-is_among ds more (perm-IsKeyed whole k)) (filter-perm (is_among ds) whole)

  -- No row is due within a limit of zero, so the early return takes nothing away.
  claimed-perm :
      (now limit lease_ms : ℕ) (rows : List (CheckRow P))
      → IsKeyed rows
      → let claimed = (claim text_lt returned now limit lease_ms rows).0 in
        Perm claimed (map to_scheduled_check (due text_lt now limit rows))
        × IsSortedBy (λ check. check.run_at) claimed
  unfolding claim
  claimed-perm now zero lease_ms rows k = unfold due in (Perm.refl [], tt)
  claimed-perm now (suc limit) lease_ms rows k =
      let ds = due text_lt now (suc limit) rows in
      let open_limit : leb (suc limit) 0 ≡ false = ground arith in
      rw open_limit (
        Perm.trans (sort_by-perm (λ check. check.run_at) _) (
            Perm.map to_scheduled_check
              (Perm.trans (all_rows _) (is_among-due now (suc limit) rows k))),
        sort_by-IsSortedBy (λ check. check.run_at) _,
      )

  -- When the table has its primary key and the database gives back the rows of an update in some
  -- order, a claim hands out, sorted by time, the checks of as many due rows as the limit and the
  -- number of due rows allow; these and the rows that are left are the due rows in another order;
  -- and no row that is left runs earlier than one that is handed out.
  pub claim-due :
      (now limit lease_ms : ℕ) (rows : List (CheckRow P))
      → IsKeyed rows
      → let claimed = (claim text_lt returned now limit lease_ms rows).0 in
        (ds : List (CheckRow P)) × (left : List (CheckRow P)) × Perm
          (ds ++ left)
          (filter (is_due now) rows)
        × All (λ d. All (λ l. d.run_at_ms ≤ l.run_at_ms) left) ds
        × (length ds ≡ min limit (length (filter (is_due now) rows)))
        × Perm claimed (map to_scheduled_check ds)
        × IsSortedBy (λ check. check.run_at) claimed
  claim-due now limit lease_ms rows k =
      let (left, split, earliest, many) = due_lem text_lt now limit rows in
      let (same, sorted) = claimed-perm now limit lease_ms rows k in
      (due text_lt now limit rows, left, split, earliest, many, same, sorted)
