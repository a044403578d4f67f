-- ===== src/PostgresStorage/Entries/Calls.antt =====
-- Sequences of calls of the table, and its answers.
use test_assestment.Common.{ℕ, none, List, [], ◌∷◌, map, ok, throw}
use test_assestment.AggregationStore.Calls.{Call, Answer, done, found, counted}
use test_assestment.PostgresStorage.Entries.{EntryRow, EntryTable, init, count_with}
use test_assestment.PostgresStorage.Entries
use test_assestment.PostgresStorage.Entries.Transaction.{append_and_count, session}
use test_assestment.PostgresStorage.Entries.Held.{stored_entry}

module _ {ℓ} {P : Type ℓ} (stored : P → P) where
  -- The answer of the table, to a call that no statement of which is refused.
  unfoldable pub call : ℕ → Call P → EntryTable P → Answer P × EntryTable P
  unfolding append_and_count session
  call now (Call.append r a k entry) t = (done, Entries.append stored r a k entry t)
  call now (Call.list r a k window_ms) t = (found (Entries.list r a k window_ms now t), t)
  call now (Call.count r a k window_ms) t = (counted (Entries.count_with r a k window_ms now t), t)
  call now (Call.append_and_count r a k entry window_ms) t =
      let (outcome, s) =
        append_and_count {E = Unit {0}} (λ statement. none) stored r a k entry window_ms now
          (session t) in
      elim outcome [ ok n ↦ (counted n, s.table) | throw e ↦ (done, s.table) ]
  call now (Call.prune older_than_ms) t = (done, Entries.prune older_than_ms now t)

  unfoldable pub calls : List (ℕ × Call P) → EntryTable P → List (Answer P) × EntryTable P
  unfolding call
  calls [] t = ([], t)
  calls ((now, c) ∷ cs) t =
      let (answer, t') = call now c t in let (answers, t'') = calls cs t' in (answer ∷ answers, t'')

  -- An answer with the payloads that the table gives back.
  abbrev pub stored_answer : Answer P → Answer P
  stored_answer done = done
  stored_answer (found entries) = found (map (stored_entry stored) entries)
  stored_answer (counted n) = counted n
