-- ===== src/Adapter/Layers/Limit.antt =====
-- However calls interleave, no more methods run at once than the limit allows.
use test_assestment.Common.{
  ℕ, ◌≡◌, String, Bool, true, false, not, ◌&&◌, Option, none, some, List, [], ◌∷◌, length, All-mono,
  arith, Bool-cases, inl, inr, Result, ok, throw,
}
use test_assestment.Adapter.Breaker.{BreakerConfig, BreakerError, Breaker, before_breaker_call}
use test_assestment.Adapter.Semaphore.{
  Semaphore, acquire, abort, release, hand_over, create_release, contains, remove, has_room,
}
use test_assestment.Adapter.Semaphore
use test_assestment.Adapter.Semaphore.Invariant.{
  Inv, AtMost, IsDistinct, step-Inv, run-initial-Inv, remove-IsDistinct,
}
use test_assestment.Adapter.Layers.{
  Layers, initial, LayerStep, arrives, gives_up, enters, leaves, admit, enter, leave, step, run,
}
use test_assestment.Adapter.Layers.Slots.{
  Held, distinct_length, acquire-live, abort-live, give_back-Held, give_back-Inv, remove-Held,
  contains-remove_self,
}

record IsSafe (limit : Option ℕ) (s : Layers) : Type 0 where
  slots : Inv limit s.semaphore
  held : Held s.semaphore.live s.running
  distinct : IsDistinct s.running

IsSafe-AtMost : (limit : Option ℕ) (s : Layers) → IsSafe limit s → AtMost limit (length s.running)
IsSafe-AtMost none s v = tt
IsSafe-AtMost (some c) s v = omega (
  arith,
  distinct_length s.running s.semaphore.live v.distinct v.held,
  v.slots.counted,
  v.slots.within,
)

module _ (name : String) (limit : Option ℕ) (cfg : Option BreakerConfig) where
  admit-IsSafe :
      (aborted : ℕ → Bool) (handle : ℕ) (r : Result BreakerError (Unit {0}) × Breaker) (s : Layers)
      → contains handle s.semaphore.live ≡ true
      → contains handle s.running ≡ false
      → IsSafe limit s
      → IsSafe limit (admit name limit cfg aborted handle r s)
  admit-IsSafe aborted handle (ok u, b) s l n v = record {
    slots = v.slots;
    held = (l, v.held);
    distinct = (n, v.distinct);
  }
  admit-IsSafe aborted handle (throw e, b) s l n v = record {
    slots = give_back-Inv limit aborted handle s.semaphore v.slots;
    held = give_back-Held limit aborted handle s.semaphore s.running v.slots n v.held;
    distinct = v.distinct;
  }

  enter-IsSafe :
      (handle now : ℕ) (aborted : ℕ → Bool) (s : Layers)
      → IsSafe limit s
      → IsSafe limit (enter name limit cfg handle now aborted s)
  unfolding enter
  enter-IsSafe handle now aborted s v =
      elim (Bool-cases (contains handle s.semaphore.live && not (contains handle s.running))) [
        | inl b ↦
            rw (b, enter)
              (admit-IsSafe aborted handle (before_breaker_call name cfg now s.breaker) s
                (ground arith) (ground arith) v)
        | inr b ↦ rw (b, enter) v
      ]

  leave-IsSafe :
      (handle now : ℕ) (aborted : ℕ → Bool) (succeeded : Bool) (s : Layers)
      → IsSafe limit s
      → IsSafe limit (leave name limit cfg handle now aborted succeeded s)
  unfolding leave
  leave-IsSafe handle now aborted succeeded s v = elim (Bool-cases (contains handle s.running)) [
    | inl b ↦
        rw (b, leave)
          (record {
            slots = give_back-Inv limit aborted handle s.semaphore v.slots;
            held =
                give_back-Held limit aborted handle s.semaphore (remove handle s.running) v.slots
                  (contains-remove_self handle s.running v.distinct)
                  (remove-Held handle s.semaphore.live s.running v.distinct v.held);
            distinct = remove-IsDistinct handle s.running v.distinct;
          })
    | inr b ↦ rw (b, leave) v
  ]

  step-IsSafe :
      (c : LayerStep) (s : Layers) → IsSafe limit s → IsSafe limit (step name limit cfg c s)
  unfolding step Semaphore.step
  step-IsSafe (arrives caller aborted) s v = record {
    slots = step-Inv limit (Semaphore.acquires caller aborted) s.semaphore v.slots;
    held = All-mono (acquire-live limit caller aborted s.semaphore) s.running v.held;
    distinct = v.distinct;
  }
  step-IsSafe (gives_up caller) s v = record {
    slots = step-Inv limit (Semaphore.aborts caller) s.semaphore v.slots;
    held = rw (abort-live caller s.semaphore) v.held;
    distinct = v.distinct;
  }
  step-IsSafe (enters handle now aborted) s v = enter-IsSafe handle now aborted s v
  step-IsSafe (leaves handle now aborted succeeded) s v =
      leave-IsSafe handle now aborted succeeded s v

  run-IsSafe :
      (cs : List LayerStep) (s : Layers) → IsSafe limit s → IsSafe limit (run name limit cfg cs s)
  unfolding run
  run-IsSafe [] s v = v
  run-IsSafe (c ∷ cs) s v = run-IsSafe cs (step name limit cfg c s) (step-IsSafe c s v)

  -- However calls arrive, give up, enter and leave, starting from a new adapter with a limit, the
  -- number of methods that run at once is never above the limit.
  pub run-AtMost :
      (cs : List LayerStep) → AtMost limit (length (run name limit cfg cs initial).running)
  unfolding initial Semaphore.run
  run-AtMost cs = IsSafe-AtMost limit (run name limit cfg cs initial) (
      run-IsSafe cs initial (record { slots = run-initial-Inv limit []; held = tt; distinct = tt }))
