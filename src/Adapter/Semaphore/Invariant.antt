-- ===== src/Adapter/Semaphore/Invariant.antt =====
-- However calls arrive, abort and end, no more than the limit are under way.
use test_assestment.Common.{
  ℕ, suc, ◌+◌, ◌≤◌, ◌<◌, ◌≡◌, refl, Bool, true, false, Option, none, some, List, [], ◌∷◌, ltb,
  length, arith, Bool-cases, inl, inr, ◌⊎◌, All, All-mono,
}
use test_assestment.Adapter.Semaphore.{
  Semaphore, initial, has_room, create_release, acquire, contains, remove, abort, hand_over,
  release, Call, acquires, aborts, releases, step, run,
}

abbrev pub AtMost : Option ℕ → ℕ → Type 0
AtMost none n = Unit
AtMost (some c) n = n ≤ c

-- No caller waits while there is room.
abbrev pub IsBusy : Option ℕ → List ℕ → ℕ → Type 0
IsBusy none waiters active = waiters ≡ []
IsBusy (some c) waiters active = (waiters ≡ []) ⊎ (active ≡ c)

abbrev pub IsDistinct : List ℕ → Type 0
IsDistinct [] = Unit
IsDistinct (x ∷ xs) = (contains x xs ≡ false) × IsDistinct xs

pub record Inv (limit : Option ℕ) (s : Semaphore) : Type 0 where
  pub counted : s.active ≡ length s.live
  pub within : AtMost limit s.active
  pub busy : IsBusy limit s.waiters s.active
  pub fresh : All (λ h. h < s.next_handle) s.live
  pub distinct : IsDistinct s.live

pub length-remove :
    (a : ℕ) (xs : List ℕ) → contains a xs ≡ true → length (remove a xs) + 1 ≡ length xs
unfolding contains remove
length-remove a [] h = cc
length-remove a (x ∷ xs) h = ground (arith, length-remove a xs)

remove-All : (P : ℕ → Type 0) (a : ℕ) (xs : List ℕ) → All P xs → All P (remove a xs)
unfolding remove
remove-All P a [] h = tt
remove-All P a (x ∷ xs) (p, h) = ground (arith, remove-All P a xs h)

contains-remove : (a b : ℕ) (xs : List ℕ) → contains b xs ≡ false → contains b (remove a xs) ≡ false
unfolding contains remove
contains-remove a b [] h = refl
contains-remove a b (x ∷ xs) h = ground (arith, contains-remove a b xs)

pub remove-IsDistinct : (a : ℕ) (xs : List ℕ) → IsDistinct xs → IsDistinct (remove a xs)
unfolding remove
remove-IsDistinct a [] h = tt
remove-IsDistinct a (x ∷ xs) (p, h) =
    ground (arith, remove-IsDistinct a xs h, contains-remove a x xs p)

contains_fresh : (n : ℕ) (xs : List ℕ) → All (λ h. h < n) xs → contains n xs ≡ false
unfolding contains
contains_fresh n [] h = refl
contains_fresh n (x ∷ xs) (p, h) = ground (arith, contains_fresh n xs h)

init-Inv : (limit : Option ℕ) → Inv limit initial
unfolding initial
init-Inv none = record { counted = refl; within = tt; busy = refl; fresh = tt; distinct = tt }
init-Inv (some c) = record {
  counted = refl;
  within = omega arith;
  busy = inl refl;
  fresh = tt;
  distinct = tt;
}

fresh-suc : (n : ℕ) (xs : List ℕ) → All (λ h. h < n) xs → All (λ h. h < n + 1) xs
fresh-suc n xs h = All-mono (λ x q. omega arith) xs h

acquire-Inv :
    (limit : Option ℕ) (caller : ℕ) (aborted : Bool) (s : Semaphore)
    → Inv limit s
    → Inv limit (acquire limit caller aborted s).1
unfolding acquire has_room create_release
acquire-Inv none caller aborted s v =
    let f = contains_fresh s.next_handle s.live v.fresh in
    let up = fresh-suc s.next_handle s.live v.fresh in ground arith
acquire-Inv (some c) caller aborted s v =
    let f = contains_fresh s.next_handle s.live v.fresh in
    let up = fresh-suc s.next_handle s.live v.fresh in
    elim (Bool-cases (ltb s.active c)) [
      | inl b ↦
          rw (b, acquire)
            (record {
              counted = omega (arith, v.counted);
              within = ground arith;
              busy = ground arith;
              fresh = (omega arith, up);
              distinct = (f, v.distinct);
            })
      | inr b ↦ elim aborted as (λ a. Inv (some c) (acquire (some c) caller a s).1) [
        | true ↦ rw (b, acquire) v
        | false ↦
            rw (b, acquire)
              (record {
                counted = v.counted;
                within = v.within;
                busy = ground arith;
                fresh = v.fresh;
                distinct = v.distinct;
              })
      ]
    ]

remove-nil : (a : ℕ) (xs : List ℕ) → xs ≡ [] → remove a xs ≡ []
unfolding remove
remove-nil a [] e = refl
remove-nil a (x ∷ xs) e = cc

remove-IsBusy :
    (limit : Option ℕ) (a : ℕ) (s : Semaphore)
    → IsBusy limit s.waiters s.active
    → IsBusy limit (remove a s.waiters) s.active
remove-IsBusy none a s b = remove-nil a s.waiters b
remove-IsBusy (some c) a s (inl b) = inl (remove-nil a s.waiters b)
remove-IsBusy (some c) a s (inr b) = inr b

abort-Inv :
    (limit : Option ℕ) (caller : ℕ) (s : Semaphore) → Inv limit s → Inv limit (abort caller s).1
unfolding abort
abort-Inv limit caller s v = elim (Bool-cases (contains caller s.waiters)) [
  | inr b ↦ rw (b, abort) v
  | inl b ↦
      rw (b, abort)
        (record {
          counted = v.counted;
          within = v.within;
          busy = remove-IsBusy limit caller s v.busy;
          fresh = v.fresh;
          distinct = v.distinct;
        })
]

-- Before the slot is given on, the caller that ends is counted and its release function is spent.
record Ending (limit : Option ℕ) (ws : List ℕ) (s : Semaphore) : Type 0 where
  counted : s.active ≡ suc (length s.live)
  within : AtMost limit s.active
  busy : IsBusy limit ws s.active
  fresh : All (λ h. h < s.next_handle) s.live
  distinct : IsDistinct s.live

hand_over-Inv :
    (limit : Option ℕ) (aborted : ℕ → Bool) (ws : List ℕ) (s : Semaphore)
    → Ending limit ws s
    → Inv limit (hand_over aborted ws s).1
unfolding hand_over create_release
hand_over-Inv none aborted [] s v = ground arith
hand_over-Inv (some c) aborted [] s v = ground arith
hand_over-Inv none aborted (w ∷ ws) s v = let e = v.busy in cc
hand_over-Inv (some c) aborted (w ∷ ws) s v =
    let f = contains_fresh s.next_handle s.live v.fresh in
    let up = fresh-suc s.next_handle s.live v.fresh in
    let full : s.active ≡ c = ground arith in
    elim (Bool-cases (aborted w)) [
      | inl b ↦
          rw (b, hand_over)
            (hand_over-Inv (some c) aborted ws s (record {
              counted = v.counted;
              within = v.within;
              busy = inr full;
              fresh = v.fresh;
              distinct = v.distinct;
            }))
      | inr b ↦
          rw (b, hand_over)
            (record {
              counted = v.counted;
              within = v.within;
              busy = inr full;
              fresh = (omega arith, up);
              distinct = (f, v.distinct);
            })
    ]

release-Inv :
    (limit : Option ℕ) (aborted : ℕ → Bool) (handle : ℕ) (s : Semaphore)
    → Inv limit s
    → Inv limit (release aborted handle s).1
unfolding release
release-Inv limit aborted handle s v = elim (Bool-cases (contains handle s.live)) [
  | inr e ↦ rw (e, release) v
  | inl e ↦
      rw (e, release)
        (hand_over-Inv limit aborted s.waiters (record s { live = remove handle s.live })
          (record {
            counted = omega (arith, length-remove handle s.live e, v.counted);
            within = v.within;
            busy = v.busy;
            fresh = remove-All (λ h. h < s.next_handle) handle s.live v.fresh;
            distinct = remove-IsDistinct handle s.live v.distinct;
          }))
]

pub step-Inv :
    (limit : Option ℕ) (c : Call) (s : Semaphore) → Inv limit s → Inv limit (step limit c s).1
unfolding step
step-Inv limit (acquires caller aborted) s v = acquire-Inv limit caller aborted s v
step-Inv limit (aborts caller) s v = abort-Inv limit caller s v
step-Inv limit (releases aborted handle) s v = release-Inv limit aborted handle s v

run-Inv :
    (limit : Option ℕ) (cs : List Call) (s : Semaphore) → Inv limit s → Inv limit (run limit cs s)
unfolding run
run-Inv limit [] s v = v
run-Inv limit (c ∷ cs) s v = run-Inv limit cs _ (step-Inv limit c s v)

-- After any sequence of acquires, aborts and releases, the count of active callers is the number
-- of release functions still uncalled, it is within the limit, callers wait only when the limit is
-- reached, and the uncalled release functions are distinct and older than the next one to be
-- handed out.
pub run-initial-Inv : (limit : Option ℕ) (cs : List Call) → Inv limit (run limit cs initial)
run-initial-Inv limit cs = run-Inv limit cs initial (init-Inv limit)
