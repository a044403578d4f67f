-- ===== src/Adapter/Layers/Slots.antt =====
-- Which slots stay when others are given back.
use test_assestment.Common.{
  ℕ, ◌≤◌, ◌≡◌, refl, Bool, true, false, Option, List, [], ◌∷◌, nat_eq, length, All, arith,
  Bool-cases, inl, inr,
}
use test_assestment.Adapter.Semaphore.{
  Semaphore, acquire, abort, release, hand_over, create_release, contains, remove, has_room,
}
use test_assestment.Adapter.Semaphore
use test_assestment.Adapter.Semaphore.Invariant.{Inv, IsDistinct, length-remove, step-Inv}
use test_assestment.Adapter.Layers.{give_back}

abbrev pub Held : List ℕ → List ℕ → Type 0
Held live running = All (λ h. contains h live ≡ true) running

pub contains-remove_ne :
    (a b : ℕ) (xs : List ℕ)
    → nat_eq a b ≡ false
    → contains b xs ≡ true
    → contains b (remove a xs) ≡ true
unfolding contains remove
contains-remove_ne a b [] n h = h
contains-remove_ne a b (x ∷ xs) n h = ground (arith, contains-remove_ne a b xs n)

pub hand_over-live :
    (aborted : ℕ → Bool) (ws : List ℕ) (s : Semaphore) (h : ℕ)
    → contains h s.live ≡ true
    → contains h (hand_over aborted ws s).1.live ≡ true
unfolding hand_over create_release contains
hand_over-live aborted [] s h e = e
hand_over-live aborted (w ∷ ws) s h e = elim (Bool-cases (aborted w)) [
  | inl b ↦ rw b (hand_over-live aborted ws s h e)
  | inr b ↦ rw b (ground arith)
]

pub release-held :
    (aborted : ℕ → Bool) (a : ℕ) (s : Semaphore)
    → contains a s.live ≡ true
    → release aborted a s ≡ hand_over aborted s.waiters (record s { live = remove a s.live })
unfolding release
release-held aborted a s b = rw (b, release)

pub release-spent :
    (aborted : ℕ → Bool) (a : ℕ) (s : Semaphore)
    → contains a s.live ≡ false
    → release aborted a s ≡ ([], s)
unfolding release
release-spent aborted a s b = rw (b, release)

pub give_back-live :
    (aborted : ℕ → Bool) (a h : ℕ) (s : Semaphore)
    → nat_eq a h ≡ false
    → contains h s.live ≡ true
    → contains h (give_back aborted a s).live ≡ true
give_back-live aborted a h s n e = elim (Bool-cases (contains a s.live)) [
  | inl b ↦
      rw (release-held aborted a s b, give_back)
        (hand_over-live aborted s.waiters (record s { live = remove a s.live }) h
          (contains-remove_ne a h s.live n e))
  | inr b ↦ rw (release-spent aborted a s b, give_back) e
]

-- No running call is this one.
pub others :
    (P Q : ℕ → Type 0) (a : ℕ) (xs : List ℕ)
    → ((h : ℕ) → nat_eq a h ≡ false → P h → Q h)
    → contains a xs ≡ false
    → All P xs
    → All Q xs
unfolding contains
others P Q a [] f c h = tt
others P Q a (x ∷ xs) f c (p, h) = (f x (ground arith) p, others P Q a xs f (ground arith) h)

pub distinct_length : (xs ys : List ℕ) → IsDistinct xs → Held ys xs → length xs ≤ length ys
distinct_length [] ys d h = omega arith
distinct_length (x ∷ xs) ys (c, d) (e, h) =
    let smaller = distinct_length xs (remove x ys) d (
      others (λ k. contains k ys ≡ true) (λ k. contains k (remove x ys) ≡ true) x xs
        (λ k. contains-remove_ne x k ys) c h) in
    omega (arith, length-remove x ys e)

pub acquire-live :
    (limit : Option ℕ) (caller : ℕ) (aborted : Bool) (s : Semaphore) (h : ℕ)
    → contains h s.live ≡ true
    → contains h (acquire limit caller aborted s).1.live ≡ true
unfolding acquire create_release contains
acquire-live limit caller aborted s h e = elim (Bool-cases (has_room limit s.active)) [
  | inl b ↦ rw (b, acquire) (ground arith)
  | inr b ↦ elim (Bool-cases aborted) [
    | inl c ↦ rw (b, acquire, c) e
    | inr c ↦ rw (b, acquire, c) e
  ]
]

pub abort-live : (caller : ℕ) (s : Semaphore) → (abort caller s).1.live ≡ s.live
unfolding abort
abort-live caller s = elim (Bool-cases (contains caller s.waiters)) [
  | inl b ↦ rw (b, abort)
  | inr b ↦ rw (b, abort)
]

pub give_back-Held :
    (limit : Option ℕ) (aborted : ℕ → Bool) (a : ℕ) (s : Semaphore) (running : List ℕ)
    → Inv limit s
    → contains a running ≡ false
    → Held s.live running
    → Held (give_back aborted a s).live running
give_back-Held limit aborted a s running v c h =
    others (λ k. contains k s.live ≡ true) (λ k. contains k (give_back aborted a s).live ≡ true) a
      running (λ k. give_back-live aborted a k s) c h

pub give_back-Inv :
    (limit : Option ℕ) (aborted : ℕ → Bool) (a : ℕ) (s : Semaphore)
    → Inv limit s
    → Inv limit (give_back aborted a s)
unfolding Semaphore.step
give_back-Inv limit aborted a s v = step-Inv limit (Semaphore.releases aborted a) s v

-- A running call keeps its slot when another one gives its own back.
pub remove-Held :
    (a : ℕ) (ys running : List ℕ)
    → IsDistinct running
    → Held ys running
    → Held ys (remove a running)
unfolding remove
remove-Held a ys [] d h = tt
remove-Held a ys (x ∷ xs) (c, d) (e, h) = elim (Bool-cases (nat_eq x a)) [
  | inl b ↦ rw b h
  | inr b ↦ rw b (e, remove-Held a ys xs d h)
]

pub contains-remove_self : (a : ℕ) (xs : List ℕ) → IsDistinct xs → contains a (remove a xs) ≡ false
unfolding contains remove
contains-remove_self a [] d = refl
contains-remove_self a (x ∷ xs) (c, d) = ground (arith, contains-remove_self a xs d)
