-- ===== src/Cancellation/Tests.antt =====
-- Runs of a scope at concrete happenings, and the theorems at them.
use test_assestment.Common.{String, ◌≡◌, refl, some, [], ◌∷◌, ◌++◌, map, ok, throw, Result, ℕ}
use test_assestment.Cancellation.{
  CancellationScope, watchdog_fires, user_aborts, dispose, is_other, waiting, create, steps, ended,
  to_scope, work_ends, run,
}
use test_assestment.Cancellation.Races.{run-steps}

abbrev scope : CancellationScope String
scope = create waiting

abbrev work : Result String ℕ
work = ok 3

-- The user aborts before the work ends and before the watchdog fires.
aborted_by_user :
    run "timeout" "aborted"
      (to_scope (user_aborts is_other) ∷ to_scope watchdog_fires ∷ work_ends work ∷ [])
      scope
    ≡ some (throw "aborted")
unfolding run create
aborted_by_user = refl

-- The work ends first.
ends_first :
    run "timeout" "aborted" (to_scope dispose ∷ to_scope watchdog_fires ∷ work_ends work ∷ []) scope
    ≡ some work
unfolding run create
ends_first = refl

run-steps_example :
    run "timeout" "aborted" (map to_scope (watchdog_fires ∷ []) ++ work_ends work ∷ []) scope
    ≡ ended "timeout" "aborted" (steps "timeout" (watchdog_fires ∷ []) scope).reason (some work)
run-steps_example = run-steps "timeout" "aborted" (watchdog_fires ∷ []) work [] scope
