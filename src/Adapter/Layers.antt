-- ===== src/Adapter/Layers.antt =====
-- runThroughLayers of engine/src/engine/adapter.ts: a call waits for a slot, asks the breaker, runs
-- the method, tells the breaker how it went, and gives the slot back in any case. A call is named by
-- its release function. Calls interleave, so each is a series of steps.
pub mod Slots
pub mod Limit
mod Tests
use test_assestment.Common.{
  ℕ, String, Bool, true, false, not, ◌&&◌, Option, List, [], ◌∷◌, if◌then◌else◌, Result, ok, throw,
}
use test_assestment.Adapter.Breaker
use test_assestment.Adapter.Breaker.{
  BreakerConfig, BreakerError, Breaker, before_breaker_call, after_breaker_success,
  after_breaker_failure,
}
use test_assestment.Adapter.Semaphore
use test_assestment.Adapter.Semaphore.{Semaphore, acquire, abort, release, contains, remove}

pub record Layers : Type 0 where
  pub semaphore : Semaphore
  pub breaker : Breaker
  pub running : List ℕ

unfoldable pub initial : Layers
initial = record { semaphore = Semaphore.initial; breaker = Breaker.initial; running = [] }

pub data LayerStep : Type 0 where
  arrives : ℕ → Bool → LayerStep
  gives_up : ℕ → LayerStep
  enters : ℕ → ℕ → (ℕ → Bool) → LayerStep
  leaves : ℕ → ℕ → (ℕ → Bool) → Bool → LayerStep

-- `finally { releaseSemaphore(); }`
abbrev pub give_back : (ℕ → Bool) → ℕ → Semaphore → Semaphore
give_back aborted handle s = (release aborted handle s).1

module _ (name : String) (limit : Option ℕ) (cfg : Option BreakerConfig) where
  -- A call that was given a slot meets the breaker: it runs, or is refused.
  abbrev pub admit : (ℕ → Bool) → ℕ → Result BreakerError (Unit {0}) × Breaker → Layers → Layers
  admit aborted handle (ok u, b) s = record s { breaker = b; running = handle ∷ s.running }
  admit aborted handle (throw e, b) s = record s {
    breaker = b;
    semaphore = give_back aborted handle s.semaphore;
  }

  unfoldable pub enter : ℕ → ℕ → (ℕ → Bool) → Layers → Layers
  unfolding before_breaker_call contains release
  enter handle now aborted s =
      if contains handle s.semaphore.live && not (contains handle s.running)
      then admit aborted handle (before_breaker_call name cfg now s.breaker) s
      else s

  abbrev pub report : Bool → ℕ → Breaker → Breaker
  report succeeded now b =
      if succeeded then after_breaker_success cfg b else after_breaker_failure cfg now b

  unfoldable pub leave : ℕ → ℕ → (ℕ → Bool) → Bool → Layers → Layers
  unfolding contains remove release after_breaker_success after_breaker_failure
  leave handle now aborted succeeded s =
      if contains handle s.running
      then record {
        semaphore = give_back aborted handle s.semaphore;
        breaker = report succeeded now s.breaker;
        running = remove handle s.running;
      }
      else s

  unfoldable pub step : LayerStep → Layers → Layers
  unfolding enter leave acquire abort
  step (arrives caller aborted) s = record s {
    semaphore = (acquire limit caller aborted s.semaphore).1;
  }
  step (gives_up caller) s = record s { semaphore = (abort caller s.semaphore).1 }
  step (enters handle now aborted) s = enter handle now aborted s
  step (leaves handle now aborted succeeded) s = leave handle now aborted succeeded s

  unfoldable pub run : List LayerStep → Layers → Layers
  unfolding step
  run [] s = s
  run (c ∷ cs) s = run cs (step c s)
