-- ===== src/Adapter/Layers/Tests.antt =====
-- Three calls on two slots, and the theorem at their run.
use test_assestment.Common.{ℕ, Bool, true, false, some, none, List, [], ◌∷◌, ◌≡◌, refl, length}
use test_assestment.Adapter.Breaker.{before_breaker_call, after_breaker_success}
use test_assestment.Adapter.Breaker
use test_assestment.Adapter.Semaphore
use test_assestment.Adapter.Semaphore.{
  acquire, release, hand_over, contains, remove, has_room, create_release,
}
use test_assestment.Adapter.Semaphore.Invariant.{AtMost}
use test_assestment.Adapter.Layers.{
  LayerStep, initial, arrives, enters, leaves, enter, leave, step, run,
}
use test_assestment.Adapter.Layers.Limit

abbrev never : ℕ → Bool
never w = false

-- The third call waits, and enters when the first one leaves.
abbrev three : List LayerStep
three =
    arrives 1 false
    ∷ enters 0 10 never
    ∷ arrives 2 false
    ∷ arrives 3 false
    ∷ enters 1 11 never
    ∷ enters 2 11 never
    ∷ leaves 0 12 never true
    ∷ enters 2 13 never
    ∷ []

two_run : (run "c" (some 2) none three initial).running ≡ 2 ∷ 1 ∷ []
unfolding run step enter leave initial acquire release hand_over contains remove has_room
    create_release before_breaker_call after_breaker_success Semaphore.initial Breaker.initial
two_run = refl

run-AtMost_example : AtMost (some 2) (length (run "c" (some 2) none three initial).running)
run-AtMost_example = Limit.run-AtMost "c" (some 2) none three
