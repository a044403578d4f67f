-- ===== src/Actions.antt =====
-- engine/src/engine/action-executor.ts: pending actions run side by side, and what they reject
-- with becomes one error. Each action is what its promise settles to.
pub mod Failures
mod Tests
use test_assestment.Common.{String, List, [], ◌∷◌, Result, ok, throw}
use test_assestment.Entities.{Error, Errors, no_errors, and_error, aggregate_error}

abbrev pub Settled : Type 0
Settled = Result Error (Unit {0})

unfoldable pub rejections : List Settled → List Error
rejections [] = []
rejections (ok u ∷ settled) = rejections settled
rejections (throw e ∷ settled) = e ∷ rejections settled

unfoldable pub to_errors : List Error → Errors
to_errors [] = no_errors
to_errors (e ∷ es) = and_error e (to_errors es)

unfoldable pub raise : String → List Error → Settled
unfolding to_errors
raise message [] = ok tt
raise message (e ∷ []) = throw e
raise message (e ∷ f ∷ es) = throw (aggregate_error message (to_errors (e ∷ f ∷ es)))

unfoldable pub run_pending_actions : List Settled → String → Settled
unfolding rejections raise
run_pending_actions settled message = raise message (rejections settled)
