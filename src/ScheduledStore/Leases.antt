-- ===== src/ScheduledStore/Leases.antt =====
-- Leases fence claims, and the composite text by which they are looked up.
use text.Mathlib.TextLemmas.{append_assoc}
use test_assestment.Common.{
  ℕ, ◌+◌, ◌≤◌, ◌<◌, String, ◌≡◌, true, false, Option, none, some, List, [], ◌∷◌, arith, ◌∙◌, length,
  ltb, str_eq_refl, All, All-mono, str_append,
}
use test_assestment.JsMap.{Map, get}
use test_assestment.JsMap.Laws.{get-set, get-delete, get-set_self}
use test_assestment.ScheduledStore.{
  ScheduledCheck, Store, lease_key, enqueue, claim, is_leased, candidates, is_candidate, lease_all,
}
use mathlib.Core.List.{Mem}
use test_assestment.ScheduledStore.Records.{find-enqueue}
use test_assestment.ScheduledStore.Claims.{claim_lem, claim_complete}

module _ {ℓ} {P : Type ℓ} where
  abbrev key_of : ScheduledCheck P → String
  key_of rec = lease_key rec.rule_id rec.key_id

  get-lease_all_keep :
      (until : ℕ) (claimed : List (ScheduledCheck P)) (j : String) (leases : Map ℕ)
      → get j leases ≡ some until
      → get j (lease_all until claimed leases) ≡ some until
  unfolding lease_all
  get-lease_all_keep until [] j leases e = e
  get-lease_all_keep until (c ∷ claimed) j leases e =
      get-lease_all_keep until claimed j _ (get-set (key_of c) j until leases ∙ rw e (ground arith))

  -- Every record of the batch is leased until the same time.
  lease_all-All :
      (until : ℕ) (claimed : List (ScheduledCheck P)) (leases : Map ℕ)
      → All (λ c. get (key_of c) (lease_all until claimed leases) ≡ some until) claimed
  unfolding lease_all
  lease_all-All until [] leases = tt
  lease_all-All until (c ∷ claimed) leases = (
    get-lease_all_keep until claimed (key_of c) _ (get-set_self (key_of c) until leases),
    lease_all-All until claimed _,
  )

  abbrev SameKey : ScheduledCheck P → ScheduledCheck P → Type 0
  SameKey c d = (c.rule_id ≡ d.rule_id) × (c.key_id ≡ d.key_id)

  pub claim-leases :
      (now limit lease_ms : ℕ) (st : Store P)
      → 0 < lease_ms
      → All
          (λ c.
            get (lease_key c.rule_id c.key_id) (claim now limit lease_ms st).1.leases
            ≡ some (now + lease_ms))
          (claim now limit lease_ms st).0
  unfolding claim
  claim-leases now limit lease_ms st h =
      let e : ltb 0 lease_ms ≡ true = ground arith in
      rw e (lease_all-All (now + lease_ms) _ st.leases)

  -- With a positive lease, a second claim made on the store that the first one left, before that
  -- lease has run out, hands out no record under a rule and key that the first one handed out.
  pub claim-claim :
      (now later limit limit' lease_ms lease_ms' : ℕ) (st : Store P)
      → later < now + lease_ms
      → 0 < lease_ms
      → let (claimed, st') = claim now limit lease_ms st in
        All
          (λ c.
            All
              (λ d. ¬ ((d.rule_id ≡ c.rule_id) × (d.key_id ≡ c.key_id)))
              (claim later limit' lease_ms' st').0)
          claimed
  claim-claim now later limit limit' lease_ms lease_ms' st h pos =
      let st' = (claim now limit lease_ms st).1 in
      let (_, _, due, _, _, _, _) = claim_lem later limit' lease_ms' st' in
      All-mono
        (λ c e.
          All-mono
            (λ d free (p, q).
              let ends = free.unleased (now + lease_ms) (rw (p, q) e) in absurd (omega arith))
            _ due)
        _ (claim-leases now limit lease_ms st pos)

-- The text does not separate the rule from the key: texts with a colon share a lease.
pub lease_key_collision :
    (x y z : String)
    → lease_key (str_append x (str_append ":" y)) z ≡ lease_key x (str_append y (str_append ":" z))
unfolding lease_key
lease_key_collision x y z = simp append_assoc

module _ {ℓ} {P : Type ℓ} where
  -- A check that was just enqueued is handed out by the next claim at or after its time whose
  -- limit is at least the number of candidates, whatever leases stood before.
  pub enqueue-claim :
      (r k : String) (run_at scheduled_at now limit lease_ms : ℕ) (payload : P)
      (deadline : Option ℕ) (st : Store P)
      → run_at ≤ now
      → let st' = enqueue r k run_at payload scheduled_at deadline st in
        length (candidates now st') ≤ limit
        → Mem
            (record {
              rule_id = r;
              key_id = k;
              run_at = run_at;
              scheduled_at = scheduled_at;
              deadline = deadline;
              payload = payload;
            })
            (claim now limit lease_ms st').0
  enqueue-claim r k run_at scheduled_at now limit lease_ms payload deadline st due enough =
      claim_complete now limit lease_ms (enqueue r k run_at payload scheduled_at deadline st) r k _
        enough (find-enqueue r k r k run_at payload scheduled_at deadline st ∙ simp str_eq_refl)
        (record {
          due = due;
          unleased = λ until e.
              let gone : get (lease_key r k)
                    (enqueue r k run_at payload scheduled_at deadline st).leases
                  ≡ none =
                unfold enqueue in
                (get-delete (lease_key r k) (lease_key r k) st.leases ∙ simp str_eq_refl) in
              absurd (ground (arith, gone, e));
        })

  -- For any texts x, y and z, a due record filed by the rule "x:y" under the key z and leased past
  -- now is no candidate, and becomes one when the rule x enqueues a check under the key "y:z".
  pub enqueue_frees_other :
      (x y z : String) (run_at scheduled_at now until : ℕ) (payload : P) (deadline : Option ℕ)
      (st : Store P) (rec : ScheduledCheck P)
      → rec.rule_id ≡ str_append x (str_append ":" y)
      → rec.key_id ≡ z
      → rec.run_at ≤ now
      → get (lease_key rec.rule_id rec.key_id) st.leases ≡ some until
      → now < until
      → (is_candidate now st.leases rec ≡ false)
        × (is_candidate now
              (enqueue x
                (str_append y (str_append ":" z))
                run_at
                payload
                scheduled_at
                deadline
                st).leases
              rec
            ≡ true)
  unfolding is_candidate is_leased enqueue
  enqueue_frees_other x y z run_at scheduled_at now until payload deadline st rec hr hk due leased
        h =
      let same : lease_key rec.rule_id rec.key_id ≡ lease_key x (str_append y (str_append ":" z)) =
        rw (hr, hk) (lease_key_collision x y z) in
      (rw leased (ground arith), rw (same, get-delete, str_eq_refl) (ground arith))
