-- ===== src/Adapter/Semaphore.antt =====
-- The concurrency limit of engine/src/engine/adapter.ts. Callers are numbers, and so are the release
-- functions that are handed out: `live` holds those that have not been called yet, which is what
-- their `released` flags say. A read of an abort signal is an argument.
pub mod Invariant
pub mod Order
mod Tests
use test_assestment.Common.{
  ℕ, zero, suc, ◌+◌, ◌-◌, Bool, true, false, Option, none, some, List, [], ◌∷◌, ◌++◌, ltb, nat_eq,
  if◌then◌else◌, ◌||◌, max,
}

pub record Semaphore : Type 0 where
  pub active : ℕ
  pub waiters : List ℕ
  pub live : List ℕ
  pub next_handle : ℕ

-- How the promise of a caller is settled.
pub data Reply : Type 0 where
  granted : ℕ → ℕ → Reply
  rejected : ℕ → Reply

-- `Math.max(1, Math.floor(integ.concurrency))`, or no limit
unfoldable pub limit_of : Option ℕ → Option ℕ
limit_of none = none
limit_of (some n) = some (max 1 n)

unfoldable pub initial : Semaphore
initial = record { active = 0; waiters = []; live = []; next_handle = 0 }

-- `active < concurrency`
unfoldable pub has_room : Option ℕ → ℕ → Bool
has_room none active = true
has_room (some c) active = ltb active c

-- `createRelease()`
unfoldable pub create_release : Semaphore → Semaphore
create_release s = record s { live = s.next_handle ∷ s.live; next_handle = s.next_handle + 1 }

unfoldable pub acquire : Option ℕ → ℕ → Bool → Semaphore → List Reply × Semaphore
unfolding has_room create_release
acquire limit caller aborted s =
    if has_room limit s.active
    then (granted caller s.next_handle ∷ [], create_release (record s { active = s.active + 1 }))
    else if aborted
    then (rejected caller ∷ [], s)
    else ([], record s { waiters = s.waiters ++ caller ∷ [] })

unfoldable pub contains : ℕ → List ℕ → Bool
contains a [] = false
contains a (x ∷ xs) = nat_eq x a || contains a xs

-- `waiters.splice(waiters.indexOf(waiter), 1)`
unfoldable pub remove : ℕ → List ℕ → List ℕ
remove a [] = []
remove a (x ∷ xs) = if nat_eq x a then xs else x ∷ remove a xs

-- The `abort` listener of a caller that waits; the others have none.
unfoldable pub abort : ℕ → Semaphore → List Reply × Semaphore
unfolding contains remove
abort caller s =
    if contains caller s.waiters
    then (rejected caller ∷ [], record s { waiters = remove caller s.waiters })
    else ([], s)

-- The loop of a release function: the slot goes to the first caller that still wants it.
unfoldable pub hand_over : (ℕ → Bool) → List ℕ → Semaphore → List Reply × Semaphore
unfolding create_release
hand_over aborted [] s = ([], record s { active = s.active - 1; waiters = [] })
hand_over aborted (w ∷ ws) s =
    let (replies, s') = hand_over aborted ws s in
    if aborted w
    then (rejected w ∷ replies, s')
    else (granted w s.next_handle ∷ [], create_release (record s { waiters = ws }))

unfoldable pub release : (ℕ → Bool) → ℕ → Semaphore → List Reply × Semaphore
unfolding contains remove hand_over
release aborted handle s =
    if contains handle s.live
    then hand_over aborted s.waiters (record s { live = remove handle s.live })
    else ([], s)

pub data Call : Type 0 where
  acquires : ℕ → Bool → Call
  aborts : ℕ → Call
  releases : (ℕ → Bool) → ℕ → Call

unfoldable pub step : Option ℕ → Call → Semaphore → List Reply × Semaphore
step limit (acquires caller aborted) s = acquire limit caller aborted s
step limit (aborts caller) s = abort caller s
step limit (releases aborted handle) s = release aborted handle s

unfoldable pub run : Option ℕ → List Call → Semaphore → Semaphore
run limit [] s = s
run limit (c ∷ cs) s = run limit cs (step limit c s).1
