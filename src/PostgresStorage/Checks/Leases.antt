-- ===== src/PostgresStorage/Checks/Leases.antt =====
-- The next claim, while the leases of one last.
use test_assestment.Common.{
  ℕ, ◌+◌, ◌<◌, String, ◌≡◌, refl, ◌∙◌, Bool, true, false, ◌&&◌, ◌||◌, ◌==◌, zero, suc, some, List,
  [], ◌∷◌, map, leb, if◌then◌else◌, arith, Bool-cases, inl, inr, filter, All, All-mono, All-perm,
  All-filter_self, sort_by-All, eq_iff,
}
use mathlib.Core.List.{Perm}
use mathlib.Core.List.Perm
use test_assestment.PostgresStorage.Checks.{
  CheckRow, same_key, is_due, due, is_among, lease_rows, claim, to_scheduled_check,
}
use test_assestment.PostgresStorage.Checks.Order.{due-All}

All-filter_imp {ℓ κ} :
    {A : Type ℓ} (Q : A → Type κ) (p : A → Bool) (xs : List A)
    → All (λ x. p x ≡ true → Q x) xs
    → All Q (filter p xs)
All-filter_imp Q p [] h = tt
All-filter_imp Q p (x ∷ xs) (f, h) = elim (Bool-cases (p x)) [
  | inl b ↦ rw b (f b, All-filter_imp Q p xs h)
  | inr b ↦ rw b (All-filter_imp Q p xs h)
]

All-map {ℓ κ μ} :
    {A : Type ℓ} {B : Type κ} (Q : B → Type μ) (f : A → B) (xs : List A)
    → All (λ x. Q (f x)) xs
    → All Q (map f xs)
All-map Q f [] h = tt
All-map Q f (x ∷ xs) (p, h) = (p, All-map Q f xs h)

all_of_each {ℓ κ} : {A : Type ℓ} (Q : A → Type κ) (xs : List A) → ((x : A) → Q x) → All Q xs
all_of_each Q [] h = tt
all_of_each Q (x ∷ xs) h = (h x, all_of_each Q xs h)

module _ {ℓ} {P : Type ℓ} where
  -- A check has the primary key of one of these rows.
  names : List (CheckRow P) → String → String → Bool
  names [] r k = false
  names (d ∷ ds) r k = r == d.rule_id && k == d.key_id || names ds r k

  names-is_among :
      (ds : List (CheckRow P)) (row : CheckRow P)
      → names ds row.rule_id row.key_id ≡ is_among ds row
  unfolding names is_among same_key
  names-is_among [] row = refl
  names-is_among (d ∷ ds) row = rw (names-is_among ds row)

  -- Rows that the update of some rows does not reach have no key of these.
  apart :
      (ds ds' : List (CheckRow P)) (r k : String)
      → All (λ d. is_among ds d ≡ false) ds'
      → names ds' r k ≡ true
      → names ds r k ≡ false
  unfolding names
  apart ds [] r k h e = cc
  apart ds (d ∷ ds') r k (p, h) e = elim (Bool-cases (r == d.rule_id && k == d.key_id)) [
    | inl b ↦
        let same : r ≡ d.rule_id = (eq_iff r d.rule_id).0 (ground arith) in
        let same' : k ≡ d.key_id = (eq_iff k d.key_id).0 (ground arith) in
        rw (same, same') (names-is_among ds d ∙ p)
    | inr b ↦ apart ds ds' r k h (ground arith)
  ]

  -- Once a row is leased past some time, it is not due at that time.
  leased_or_apart :
      (until later : ℕ) (ds : List (CheckRow P)) (row : CheckRow P)
      → later < until
      → let row' = if is_among ds row then record row { leased_until_ms = some until } else row in
        is_due later row' ≡ true → is_among ds row' ≡ false
  leased_or_apart until later ds row h = elim (Bool-cases (is_among ds row)) [
    | inl b ↦ rw b (λ e. absurd (ground (arith, e)))
    | inr b ↦ rw b (λ e. b)
  ]

  lease_rows-apart :
      (until later : ℕ) (ds rows : List (CheckRow P))
      → later < until
      → All (λ d. is_among ds d ≡ false) (filter (is_due later) (lease_rows until ds rows))
  unfolding lease_rows
  lease_rows-apart until later ds rows h = All-filter_imp _ (is_due later) _ (
      All-map (λ row. is_due later row ≡ true → is_among ds row ≡ false) _ rows
        (all_of_each _ rows (λ row. leased_or_apart until later ds row h)))

module _ {ℓ} {P : Type ℓ} (text_lt : String → String → Bool)
    (returned : List (CheckRow P) → List (CheckRow P))
    (all_rows : (rows : List (CheckRow P)) → Perm (returned rows) rows) where
  claimed-names :
      (now limit lease_ms : ℕ) (rows : List (CheckRow P))
      → All
          (λ c. names (due text_lt now limit rows) c.rule_id c.key_id ≡ true)
          (claim text_lt returned now limit lease_ms rows).0
  unfolding claim to_scheduled_check
  claimed-names now zero lease_ms rows = tt
  claimed-names now (suc limit) lease_ms rows =
      let ds = due text_lt now (suc limit) rows in
      let open_limit : leb (suc limit) 0 ≡ false = ground arith in
      rw open_limit (
        sort_by-All (λ check. check.run_at) (λ c. names ds c.rule_id c.key_id ≡ true) _
          (All-map (λ c. names ds c.rule_id c.key_id ≡ true) to_scheduled_check _
            (All-perm (λ row. names ds row.rule_id row.key_id) (Perm.symm (all_rows _))
              (All-mono (λ row e. names-is_among ds row ∙ e) _
                (All-filter_self (is_among ds) rows)))))

  claim-rows :
      (now limit lease_ms : ℕ) (rows : List (CheckRow P))
      → (claim text_lt returned now (suc limit) lease_ms rows).1
        ≡ lease_rows (now + lease_ms) (due text_lt now (suc limit) rows) rows
  unfolding claim
  claim-rows now limit lease_ms rows =
      let open_limit : leb (suc limit) 0 ≡ false = ground arith in rw open_limit

  -- When the database gives back the rows of an update in some order, a second claim made on the
  -- table that the first one left, before the lease of the first has run out, hands out no check
  -- under a rule and key that the first one handed out.
  pub claim-leased :
      (now later limit limit' lease_ms lease_ms' : ℕ) (rows : List (CheckRow P))
      → later < now + lease_ms
      → let (claimed, rows') = claim text_lt returned now limit lease_ms rows in
        All
          (λ c.
            All
              (λ d. ¬ ((d.rule_id ≡ c.rule_id) × (d.key_id ≡ c.key_id)))
              (claim text_lt returned later limit' lease_ms' rows').0)
          claimed
  claim-leased now later zero limit' lease_ms lease_ms' rows h = unfold claim in tt
  claim-leased now later (suc limit) limit' lease_ms lease_ms' rows h =
      let ds = due text_lt now (suc limit) rows in
      let rows' = lease_rows (now + lease_ms) ds rows in
      let free =
        due-All text_lt (λ d. is_among ds d ≡ false) later limit' rows'
          (lease_rows-apart (now + lease_ms) later ds rows h) in
      rw (claim-rows now limit lease_ms rows) (
        All-mono
          (λ c e.
            All-mono
              (λ d e' (p, q).
                let gone = apart ds (due text_lt later limit' rows') d.rule_id d.key_id free e' in
                let back : names ds d.rule_id d.key_id ≡ true = rw (p, q) e in cc)
              _ (claimed-names later limit' lease_ms' rows'))
          _ (claimed-names now (suc limit) lease_ms rows))
