-- ===== src/PostgresStorage/Entries/Tests.antt =====
-- Runs of the table, and the theorems at them.
use test_assestment.Common.{ℕ, ◌+◌, String, ◌≡◌, refl, Option, none, some, [], ◌∷◌, List, throw}
use test_assestment.AggregationStore.{AggregationEntry, Buckets}
use test_assestment.AggregationStore.Calls.{Call, Answer, done, found, counted}
use test_assestment.AggregationStore
use test_assestment.PostgresStorage.Entries.{
  EntryTable, init, order_by_time, matching, count_with, to_aggregation_entry,
}
use test_assestment.PostgresStorage.Entries.Transaction
use test_assestment.PostgresStorage.Entries.Transaction.{
  Statement, Session, append_and_count, session,
}
use test_assestment.PostgresStorage.Entries.Refused.{Released}
use test_assestment.PostgresStorage.Entries.Calls.{calls, stored_answer}
use test_assestment.PostgresStorage.Entries.Refinement
use test_assestment.PostgresStorage.Entries.Refused
use test_assestment.Common.{map, sort_by, insert_by}
use test_assestment.PostgresStorage.Entries

abbrev entry : ℕ → AggregationEntry ℕ
entry t = record { at = t; delivery_id = "d"; payload = t }

-- What is read back differs from what was written.
abbrev stored : ℕ → ℕ
stored n = n + 1

-- Two runs out of order, one of another pull request, and one that is counted at once.
abbrev steps : List (ℕ × Call ℕ)
steps =
    (20, Call.append "flaky" "record" "pr-1" (entry 20))
    ∷ (21, Call.append "flaky" "record" "pr-1" (entry 10))
    ∷ (22, Call.append "flaky" "record" "pr-2" (entry 22))
    ∷ (30, Call.append_and_count "flaky" "record" "pr-1" (entry 30) 15)
    ∷ (31, Call.list "flaky" "record" "pr-1" 30)
    ∷ (40, Call.prune 15)
    ∷ (41, Call.count "flaky" "record" "pr-1" 30)
    ∷ []

steps_answers :
    (calls stored steps init).0
    ≡ done
      ∷ done
      ∷ done
      ∷ counted 2
      ∷ found (
          record { at = 10; delivery_id = "d"; payload = 11 }
          ∷ record { at = 20; delivery_id = "d"; payload = 21 }
          ∷ record { at = 30; delivery_id = "d"; payload = 31 }
          ∷ [])
      ∷ done
      ∷ counted 1
      ∷ []
unfolding calls init order_by_time Entries.list Entries.append Entries.prune
    Transaction.append_and_count sort_by insert_by
steps_answers = refl

calls-init_example :
    (answers : List (Answer ℕ)) × (st : Buckets ℕ) × (AggregationStore.Calls.calls steps []
      ≡ some (answers, st))
    × ((calls stored steps init).0 ≡ map (stored_answer stored) answers)
calls-init_example = Refinement.calls-init stored steps

-- The commit is refused.
abbrev refuses : Statement → Option String
refuses Statement.commit = some "down"
refuses other = none

refused_run :
    (append_and_count refuses stored "flaky" "record" "pr-1" (entry 50) 60 50 (session init)).1
    ≡ record { table = record { rows = []; next_id = 2 }; transaction = none; clients = 0 }
unfolding append_and_count session init
refused_run = refl

calls-refused_example :
    let t = (calls stored steps init).1 in
    let (outcome, s) =
      append_and_count refuses stored "flaky" "record" "pr-1" (entry 50) 60 50 (session t) in
    (outcome ≡ throw "down")
    × Released (refuses Statement.rollback) s
    × ((calls stored steps s.table).0 ≡ (calls stored steps t).0)
calls-refused_example =
    Refused.calls-refused stored steps steps refuses "down" "flaky" "record" "pr-1" (entry 50) 60 50
      refl
