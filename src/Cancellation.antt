-- ===== src/Cancellation.antt =====
-- CancellationScope of engine/src/engine/utility/cancellation.ts: a watchdog, the signal of the
-- user and the controller. What happens to a scope, and the end of the work that it runs, come one
-- after another.
pub mod Races
mod Tests
use test_assestment.Common.{
  Bool, true, false, Option, none, some, List, [], ◌∷◌, if◌then◌else◌, Result, ok, throw,
}

-- `reason instanceof Error`, or any other value.
pub data Reason {ℓ} (E : Type ℓ) : Type ℓ where
  is_error : E → Reason E
  is_other : Reason E

-- The signal that the user gives, if any, may have been aborted before.
pub data UserSignal {ℓ} (E : Type ℓ) : Type ℓ where
  absent : UserSignal E
  waiting : UserSignal E
  was_aborted : Reason E → UserSignal E

pub record CancellationScope {ℓ} (E : Type ℓ) : Type ℓ where
  -- The reason of the controller, once it is aborted.
  pub reason : Option (Reason E)
  pub is_watched : Bool
  pub is_listening : Bool

pub data Event {ℓ} (E : Type ℓ) : Type ℓ where
  watchdog_fires : Event E
  user_aborts : Reason E → Event E
  abort_with : Reason E → Event E
  dispose : Event E

module _ {ℓ} {E : Type ℓ} where
  -- `controller.abort(reason)`: only the first call has an effect.
  abbrev pub first_reason : Option (Reason E) → Reason E → Option (Reason E)
  first_reason none r = some r
  first_reason (some q) r = some q

  unfoldable pub abort : Reason E → CancellationScope E → CancellationScope E
  abort r s = record s { reason = first_reason s.reason r }

  unfoldable pub create : UserSignal E → CancellationScope E
  create absent = record { reason = none; is_watched = true; is_listening = false }
  create waiting = record { reason = none; is_watched = true; is_listening = true }
  create (was_aborted r) = record { reason = some r; is_watched = true; is_listening = false }

  -- `reason instanceof Error ? reason : new Error('aborted')`, with that error as an argument.
  abbrev pub signal_abort_error : E → Reason E → E
  signal_abort_error aborted (is_error e) = e
  signal_abort_error aborted is_other = aborted

  -- `dispose()`
  abbrev pub dispose_scope : CancellationScope E → CancellationScope E
  dispose_scope s = record s { is_watched = false; is_listening = false }

  -- The reason of a timeout is an argument.
  unfoldable pub step : E → Event E → CancellationScope E → CancellationScope E
  unfolding abort
  step timeout watchdog_fires s =
      if s.is_watched then abort (is_error timeout) (record s { is_watched = false }) else s
  step timeout (user_aborts r) s = if s.is_listening then abort r s else s
  step timeout (abort_with r) s = abort r s
  step timeout dispose s = dispose_scope s

  unfoldable pub steps : E → List (Event E) → CancellationScope E → CancellationScope E
  unfolding step
  steps timeout [] s = s
  steps timeout (e ∷ es) s = steps timeout es (step timeout e s)

pub data Happening {ℓ κ} (E : Type ℓ) (A : Type κ) : Type (ℓ ⊔ κ) where
  to_scope : Event E → Happening E A
  work_ends : Result E A → Happening E A

module _ {ℓ κ} {E : Type ℓ} {A : Type κ} (timeout aborted : E) where
  abbrev pub ended : Option (Reason E) → Option (Result E A) → Option (Result E A)
  ended (some r) rest = some (throw (signal_abort_error aborted r))
  ended none rest = rest

  -- `Promise.race([mainPromise, abortPromise])`; none is a promise that waits.
  unfoldable pub race : List (Happening E A) → CancellationScope E → Option (Result E A)
  unfolding step
  race [] s = none
  race (work_ends result ∷ hs) s = some result
  race (to_scope e ∷ hs) s = ended (step timeout e s).reason (race hs (step timeout e s))

  -- `throwIfAborted`, and the race.
  unfoldable pub run : List (Happening E A) → CancellationScope E → Option (Result E A)
  unfolding race
  run hs s = ended s.reason (race hs s)
