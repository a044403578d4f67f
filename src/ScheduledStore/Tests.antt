-- ===== src/ScheduledStore/Tests.antt =====
-- Runs of the store, and the theorems at them.
use mathlib.Core.List.{Mem, Perm}
use test_assestment.Common.{
  ℕ, ◌≤◌, ◌≡◌, refl, true, false, none, some, List, [], ◌∷◌, ◌++◌, arith, length, String, All,
  IsSortedBy, min, insert_by, sort_by,
}
use test_assestment.JsMap.{get, set, delete}
use test_assestment.ScheduledStore.{
  ScheduledCheck, Store, create, lease_key, find, enqueue, claim, remove, reschedule, candidates,
  is_candidate, is_leased, lease_all,
}
use test_assestment.ScheduledStore.Claims
use test_assestment.ScheduledStore.Claims.{IsDue}
use test_assestment.ScheduledStore.Leases
use mathlib.Core.List.{flatten}

abbrev check : String → ℕ → ScheduledCheck ℕ
check key run_at = record {
  rule_id = "quiet";
  key_id = key;
  run_at = run_at;
  scheduled_at = 0;
  deadline = some 90;
  payload = run_at;
}

-- Two checks, due at 50 and at 40.
abbrev two : Store ℕ
two = record {
  records = ("quiet", ("a", check "a" 50) ∷ ("b", check "b" 40) ∷ []) ∷ [];
  leases = [];
}

store : Unit {0}
unfolding create find enqueue claim remove reschedule candidates is_candidate is_leased lease_all
    lease_key get set delete sort_by insert_by flatten
store = tt

enqueue_twice :
    enqueue "quiet" "b" 40 40 0 (some 90) (enqueue "quiet" "a" 50 50 0 (some 90) create) ≡ two
unfolding store
enqueue_twice = refl

claim_earliest :
    claim 60 1 30 two ≡ (check "b" 40 ∷ [], record two { leases = ("quiet:b", 90) ∷ [] })
unfolding store
claim_earliest = refl

remove_a : find "quiet" "a" (remove "quiet" "a" two) ≡ none
unfolding store
remove_a = refl

claim_lem_example :
    (left : List (ScheduledCheck ℕ)) × Perm ((claim 60 1 30 two).0 ++ left) (candidates 60 two)
    × All (IsDue 60 two.leases) (claim 60 1 30 two).0
    × IsSortedBy (λ rec. rec.run_at) (claim 60 1 30 two).0
    × All (λ c. All (λ l. c.run_at ≤ l.run_at) left) (claim 60 1 30 two).0
    × (length (claim 60 1 30 two).0 ≡ min 1 (length (candidates 60 two)))
    × ((claim 60 1 30 two).1.records ≡ two.records)
claim_lem_example = Claims.claim_lem 60 1 30 two

claim-claim_example :
    let (claimed, st') = claim 60 1 30 two in
    All
      (λ c. All (λ d. ¬ ((d.rule_id ≡ c.rule_id) × (d.key_id ≡ c.key_id))) (claim 80 5 30 st').0)
      claimed
claim-claim_example = Leases.claim-claim 60 80 1 5 30 30 two (omega arith) (omega arith)

enqueue-claim_example :
    let st' = enqueue "quiet" "c" 55 1 0 none two in
    Mem
      (record {
        rule_id = "quiet";
        key_id = "c";
        run_at = 55;
        scheduled_at = 0;
        deadline = none;
        payload = 1;
      })
      (claim 60 5 30 st').0
unfolding store
enqueue-claim_example =
    Leases.enqueue-claim "quiet" "c" 55 0 60 5 30 1 none two (omega arith) (omega arith)

abbrev nested : ScheduledCheck ℕ
nested = record (check "z" 40) { rule_id = "x:y" }

abbrev leased : Store ℕ
leased = record { records = ("x:y", ("z", nested) ∷ []) ∷ []; leases = ("x:y:z", 90) ∷ [] }

enqueue_frees_other_example :
    (is_candidate 60 leased.leases nested ≡ false)
    × (is_candidate 60 (enqueue "x" "y:z" 70 1 60 none leased).leases nested ≡ true)
unfolding store
enqueue_frees_other_example =
    Leases.enqueue_frees_other "x" "y" "z" 70 60 60 90 1 none leased nested refl refl (omega arith)
      refl (omega arith)
