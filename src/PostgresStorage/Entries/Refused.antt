-- ===== src/PostgresStorage/Entries/Refused.antt =====
-- A transaction that a refused statement ends, in a sequence of calls.
use test_assestment.Common.{
  ℕ, ◌≤◌, String, ◌≡◌, refl, ap, sym, ◌∙◌, ◌⊎◌, inl, inr, Option, none, some, List, [], map, throw,
  Result, arith, All-mono,
}
use test_assestment.AggregationStore.{AggregationEntry, Buckets}
use test_assestment.AggregationStore.Calls.{Call}
use test_assestment.PostgresStorage.Entries.{EntryTable, init, append}
use test_assestment.PostgresStorage.Entries.Transaction.{
  Statement, connect, begin, insert, count, commit, rollback, Session, session, append_and_count,
}
use test_assestment.PostgresStorage.Entries.Calls.{calls, stored_answer}
use test_assestment.PostgresStorage.Entries.Refinement.{Refines, calls-Refines, init-Refines}

abbrev pub or_else {ℓ} : {E : Type ℓ} → Option E → Option E → Option E
or_else none later = later
or_else (some e) later = some e

-- The error of the first statement of the transaction that is refused.
abbrev pub first_refused {ℓ} : {E : Type ℓ} → (Statement → Option E) → Option E
first_refused refuses =
    or_else (refuses connect) (
      or_else (refuses begin) (or_else (refuses insert) (or_else (refuses count) (refuses commit))))

-- The client is released, and no transaction of it is open, unless the rollback was refused.
abbrev pub Released {ℓ κ} : {P : Type ℓ} {E : Type κ} → Option E → Session P → Type (ℓ ⊔ κ)
Released {E = E} refused s =
    (s.clients ≡ 0) × ((s.transaction ≡ none) ⊎ ((e : E) × (refused ≡ some e)))

module _ {ℓ κ} {P : Type ℓ} {E : Type κ} (stored : P → P) (r a k : String)
    (entry : AggregationEntry P) (window_ms now : ℕ) (t : EntryTable P) where
  -- Nothing is written but perhaps the next id.
  abbrev Ended : Option E → E → Result E ℕ × Session P → Type (ℓ ⊔ κ)
  Ended refused e (outcome, s) =
      (outcome ≡ throw e)
      × Released refused s
      × (s.table.rows ≡ t.rows)
      × (t.next_id ≤ s.table.next_id)

  abbrev result : E → Result E ℕ
  result e = throw e

  thrown : (x e : E) → some x ≡ some e → result x ≡ result e
  thrown x e h = ap (λ o. elim o [ none ↦ throw x | some y ↦ throw y ]) h

  abbrev deciding :
      Option E → Option E → Option E → Option E → Option E → Option E → Statement → Option E
  deciding c b i n m back connect = c
  deciding c b i n m back begin = b
  deciding c b i n m back insert = i
  deciding c b i n m back count = n
  deciding c b i n m back commit = m
  deciding c b i n m back rollback = back

  deciding-Ended :
      (c b i n m back : Option E) (e : E)
      → or_else c (or_else b (or_else i (or_else n m))) ≡ some e
      → Ended back e
          (append_and_count (deciding c b i n m back) stored r a k entry window_ms now (session t))
  unfolding append_and_count session append
  deciding-Ended (some e') b i n m back e h = (thrown e' e h, (refl, inl refl), refl, omega arith)
  deciding-Ended none (some e') i n m none e h =
      (thrown e' e h, (refl, inl refl), refl, omega arith)
  deciding-Ended none (some e') i n m (some x) e h =
      (thrown e' e h, (refl, inr (x, refl)), refl, omega arith)
  deciding-Ended none none (some e') n m none e h =
      (thrown e' e h, (refl, inl refl), refl, omega arith)
  deciding-Ended none none (some e') n m (some x) e h =
      (thrown e' e h, (refl, inr (x, refl)), refl, omega arith)
  deciding-Ended none none none (some e') m none e h =
      (thrown e' e h, (refl, inl refl), refl, omega arith)
  deciding-Ended none none none (some e') m (some x) e h =
      (thrown e' e h, (refl, inr (x, refl)), refl, omega arith)
  deciding-Ended none none none none (some e') none e h =
      (thrown e' e h, (refl, inl refl), refl, omega arith)
  deciding-Ended none none none none (some e') (some x) e h =
      (thrown e' e h, (refl, inr (x, refl)), refl, omega arith)
  deciding-Ended none none none none none back e h = ground arith

  refused-Ended :
      (refuses : Statement → Option E) (e : E)
      → first_refused refuses ≡ some e
      → Ended
          (refuses rollback)
          e
          (append_and_count refuses stored r a k entry window_ms now (session t))
  unfolding append_and_count session append
  refused-Ended refuses e h =
      deciding-Ended (refuses connect) (refuses begin) (refuses insert) (refuses count)
        (refuses commit) (refuses rollback) e h

module _ {ℓ} {P : Type ℓ} (stored : P → P) where
  -- The next id is not read.
  rows-Refines :
      (st : Buckets P) (t t' : EntryTable P)
      → t'.rows ≡ t.rows
      → t.next_id ≤ t'.next_id
      → Refines stored st t
      → Refines stored st t'
  rows-Refines st t t' e le h = record {
    sorted = h.sorted;
    ordered = record {
      ascending = rw e h.ordered.ascending;
      fresh = rw e (All-mono (λ row q. omega arith) t.rows h.ordered.fresh);
    };
    same = λ r a k. rw e (h.same r a k);
  }

  -- After any calls of an empty table, an append with a count of which the database refuses at
  -- least one statement, the commit or the connection included, throws the error of the first that
  -- is refused, releases its client, leaves no transaction open unless the rollback is refused
  -- too, and every later sequence of calls of the table that is committed gets the answers that it
  -- would have got without it.
  pub calls-refused {κ} :
      {E : Type κ} (before after : List (ℕ × Call P)) (refuses : Statement → Option E) (e : E)
      (r a k : String) (entry : AggregationEntry P) (window_ms now : ℕ)
      → first_refused refuses ≡ some e
      → let t = (calls stored before init).1 in
        let (outcome, s) = append_and_count refuses stored r a k entry window_ms now (session t) in
        (outcome ≡ throw e)
        × Released (refuses rollback) s
        × ((calls stored after s.table).0 ≡ (calls stored after t).0)
  calls-refused before after refuses e r a k entry window_ms now refused =
      let t = (calls stored before init).1 in
      let s = (append_and_count refuses stored r a k entry window_ms now (session t)).1 in
      let (threw, released, rows, ids) =
        refused-Ended stored r a k entry window_ms now t refuses e refused in
      let (_, st, _, _, h) = calls-Refines stored before [] init (init-Refines stored) in
      let (_, _, ran, same, _) = calls-Refines stored after st t h in
      let (_, _, ran', same', _) =
        calls-Refines stored after st s.table (rows-Refines st t s.table rows ids h) in
      (threw, released, same' ∙ ap (map (stored_answer stored)) (cc) ∙ sym same)
