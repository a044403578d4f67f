-- ===== src/Actions/Tests.antt =====
-- Two actions of three fail, and the theorem at such lists.
use test_assestment.Common.{List, [], ◌∷◌, ok, throw, ◌≡◌, refl, ◌↔◌, All}
use test_assestment.Entities.{error, no_errors, and_error, aggregate_error}
use test_assestment.Actions.{Settled, rejections, to_errors, raise, run_pending_actions}
use test_assestment.Actions.Failures

abbrev two_fail : List Settled
two_fail = throw (error "a") ∷ ok tt ∷ throw (error "b") ∷ []

aggregates :
    run_pending_actions two_fail "multiple actions failed"
    ≡ throw (
        aggregate_error "multiple actions failed"
          (and_error (error "a") (and_error (error "b") no_errors)))
unfolding run_pending_actions rejections raise to_errors
aggregates = refl

run_pending_actions_iff_example :
    (run_pending_actions two_fail "m" ≡ ok tt) ↔ All (λ s. s ≡ ok tt) two_fail
run_pending_actions_iff_example = Failures.run_pending_actions_iff two_fail "m"
