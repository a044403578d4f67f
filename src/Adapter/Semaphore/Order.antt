-- ===== src/Adapter/Semaphore/Order.antt =====
-- Whom a slot goes to, and what a second call of a release function does.
use test_assestment.Common.{
  ℕ, ◌<◌, ◌≡◌, refl, Bool, true, false, Option, List, [], ◌∷◌, ◌++◌, map, nat_eq, arith, Bool-cases,
  inl, inr, All,
}
use test_assestment.Adapter.Semaphore.{
  Semaphore, granted, rejected, create_release, contains, remove, hand_over, release,
}
use test_assestment.Adapter.Semaphore.Invariant.{Inv, IsDistinct}

hand_over_lem :
    (aborted : ℕ → Bool) (gone : List ℕ) (w : ℕ) (rest : List ℕ) (s : Semaphore)
    → All (λ g. aborted g ≡ true) gone
    → aborted w ≡ false
    → hand_over aborted (gone ++ w ∷ rest) s ≡ (
      map rejected gone ++ granted w s.next_handle ∷ [],
      create_release (record s { waiters = rest }),
    )
unfolding hand_over
hand_over_lem aborted [] w rest s a h = rw h
hand_over_lem aborted (g ∷ gone) w rest s (e, a) h = rw (e, hand_over_lem aborted gone w rest s a h)

-- The first call of a release function rejects the waiters that gave up and stand before the first
-- one that still waits, gives the slot to that one with a new release function, keeps the others
-- in order, and leaves the count of active callers as it was.
pub release_serves_first :
    (aborted : ℕ → Bool) (gone : List ℕ) (w : ℕ) (rest : List ℕ) (handle : ℕ) (s : Semaphore)
    → contains handle s.live ≡ true
    → s.waiters ≡ gone ++ w ∷ rest
    → All (λ g. aborted g ≡ true) gone
    → aborted w ≡ false
    → let (replies, s') = release aborted handle s in
      (replies ≡ map rejected gone ++ granted w s.next_handle ∷ [])
      × (s'.waiters ≡ rest)
      × (s'.active ≡ s.active)
      × (s'.live ≡ s.next_handle ∷ remove handle s.live)
unfolding release create_release
release_serves_first aborted gone w rest handle s e q a h =
    rw (e, q, hand_over_lem aborted gone w rest _ a h) (refl, refl, refl, refl)

contains-remove_self : (a : ℕ) (xs : List ℕ) → IsDistinct xs → contains a (remove a xs) ≡ false
unfolding contains remove
contains-remove_self a [] d = refl
contains-remove_self a (x ∷ xs) (p, d) = ground (arith, contains-remove_self a xs d)

-- No slot that is handed on carries the handle that was spent.
hand_over-contains :
    (aborted : ℕ → Bool) (handle : ℕ) (ws : List ℕ) (s : Semaphore)
    → contains handle s.live ≡ false
    → handle < s.next_handle
    → contains handle (hand_over aborted ws s).1.live ≡ false
unfolding hand_over create_release contains
hand_over-contains aborted handle [] s e h = e
hand_over-contains aborted handle (w ∷ ws) s e h = elim (Bool-cases (aborted w)) [
  | inl b ↦ rw (b, hand_over) (hand_over-contains aborted handle ws s e h)
  | inr b ↦ rw (b, hand_over) (ground arith)
]

contains-All : (P : ℕ → Type 0) (a : ℕ) (xs : List ℕ) → contains a xs ≡ true → All P xs → P a
unfolding contains
contains-All P a [] e h = cc
contains-All P a (x ∷ xs) e (p, h) = elim (Bool-cases (nat_eq x a)) [
  | inl b ↦ let same : x ≡ a = ground arith in rw (← same) p
  | inr b ↦ contains-All P a xs (rw b at e) h
]

-- In a state that keeps the invariant, a second call of the same release function answers nobody
-- and changes nothing.
release_twice :
    (limit : Option ℕ) (aborted aborted' : ℕ → Bool) (handle : ℕ) (s : Semaphore)
    → Inv limit s
    → contains handle s.live ≡ true
    → let s' = (release aborted handle s).1 in release aborted' handle s' ≡ ([], s')
unfolding release
release_twice limit aborted aborted' handle s v e =
    let spent : contains handle (release aborted handle s).1.live ≡ false =
      rw (e, release)
        (hand_over-contains aborted handle s.waiters _
          (contains-remove_self handle s.live v.distinct)
          (contains-All (λ h. h < s.next_handle) handle s.live e v.fresh)) in
    rw spent
