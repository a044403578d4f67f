-- ===== src/Adapter/Semaphore/Tests.antt =====
-- Two slots and four callers, and the theorems at such states.
use test_assestment.Common.{ℕ, ◌≡◌, refl, arith, Bool, false, some, List, [], ◌∷◌, inr}
use test_assestment.Adapter.Semaphore.{
  Semaphore, limit_of, initial, acquire, abort, contains, remove, Call, acquires, aborts, step, run,
  has_room, create_release,
}
use test_assestment.Adapter.Semaphore.Invariant
use test_assestment.Adapter.Semaphore.Invariant.{Inv}

abbrev never : ℕ → Bool
never w = false

abbrev arrivals : List Call
arrivals = acquires 1 false ∷ acquires 2 false ∷ acquires 3 false ∷ acquires 4 false ∷ aborts 3 ∷ []

abbrev full : Semaphore
full = record { active = 2; waiters = 4 ∷ []; live = 1 ∷ 0 ∷ []; next_handle = 2 }

arrive : run (limit_of (some 2)) arrivals initial ≡ full
unfolding run step acquire abort limit_of initial has_room create_release contains remove
arrive = refl

full-Inv : Inv (some 2) full
unfolding contains
full-Inv = record {
  counted = refl;
  within = omega arith;
  busy = inr refl;
  fresh = omega arith;
  distinct = (refl, (refl, tt));
}

run-initial-Inv_example : Inv (some 2) (run (some 2) arrivals initial)
run-initial-Inv_example = Invariant.run-initial-Inv (some 2) arrivals
