-- ===== src/Cancellation/Races.antt =====
-- What a run ends with, and what a scope that was disposed does.
use test_assestment.Common.{
  ◌≡◌, refl, ap, ◌∙◌, false, Option, none, some, List, [], ◌∷◌, ◌++◌, map, All, Result, Bool-cases,
  inl, inr,
}
use test_assestment.Cancellation.{
  Reason, CancellationScope, Event, watchdog_fires, user_aborts, abort_with, dispose, step, steps,
  Happening, to_scope, work_ends, ended, race, run,
}

module _ {ℓ} {E : Type ℓ} (timeout : E) where
  -- The first reason stays.
  step-reason :
      (e : Event E) (s : CancellationScope E) (r : Reason E)
      → s.reason ≡ some r
      → (step timeout e s).reason ≡ some r
  unfolding step
  step-reason watchdog_fires s r h = elim (Bool-cases s.is_watched) [
    | inl b ↦ rw (b, h)
    | inr b ↦ rw b h
  ]
  step-reason (user_aborts q) s r h = elim (Bool-cases s.is_listening) [
    | inl b ↦ rw (b, h)
    | inr b ↦ rw b h
  ]
  step-reason (abort_with q) s r h = rw h
  step-reason dispose s r h = h

  steps-reason :
      (es : List (Event E)) (s : CancellationScope E) (r : Reason E)
      → s.reason ≡ some r
      → (steps timeout es s).reason ≡ some r
  unfolding steps
  steps-reason [] s r h = h
  steps-reason (e ∷ es) s r h = steps-reason es (step timeout e s) r (step-reason e s r h)

  -- Neither the watchdog nor the user.
  abbrev pub IsOutside : Event E → Type 0
  IsOutside (abort_with r) = ⊥
  IsOutside e = Unit

  still_watchdog :
      (s : CancellationScope E) → s.is_watched ≡ false → step timeout watchdog_fires s ≡ s
  unfolding step
  still_watchdog s w = simp w

  still_user :
      (r : Reason E) (s : CancellationScope E)
      → s.is_listening ≡ false
      → step timeout (user_aborts r) s ≡ s
  unfolding step
  still_user r s l = simp l

  steps_outside :
      (es : List (Event E)) (s : CancellationScope E)
      → All IsOutside es
      → s.is_watched ≡ false
      → s.is_listening ≡ false
      → (steps timeout es s).reason ≡ s.reason
  unfolding steps step
  steps_outside [] s h w l = refl
  steps_outside (watchdog_fires ∷ es) s (_, h) w l =
      ap (λ t. (steps timeout es t).reason) (still_watchdog s w) ∙ steps_outside es s h w l
  steps_outside (user_aborts r ∷ es) s (_, h) w l =
      ap (λ t. (steps timeout es t).reason) (still_user r s l) ∙ steps_outside es s h w l
  steps_outside (abort_with r ∷ es) s (x, h) w l = absurd x
  steps_outside (dispose ∷ es) s (_, h) w l = steps_outside es (step timeout dispose s) h refl refl

  -- After a scope was disposed, neither its watchdog nor the signal of the user aborts it, however
  -- often they fire.
  pub dispose-steps :
      (es : List (Event E)) (s : CancellationScope E)
      → All IsOutside es
      → (steps timeout (dispose ∷ es) s).reason ≡ s.reason
  unfolding steps step
  dispose-steps es s h = steps_outside es (step timeout dispose s) h refl refl

module _ {ℓ κ} {E : Type ℓ} {A : Type κ} (timeout aborted : E) where
  ended-steps :
      (es : List (Event E)) (result : Result E A) (s : CancellationScope E) (o : Option (Reason E))
      (rest : Option (Result E A))
      → s.reason ≡ o
      → (s.reason ≡ none → rest ≡ ended timeout aborted (steps timeout es s).reason (some result))
      → ended timeout aborted o rest
        ≡ ended timeout aborted (steps timeout es s).reason (some result)
  ended-steps es result s none rest h waits = waits h
  ended-steps es result s (some r) rest h waits = rw (steps-reason timeout es s r h) refl

  race-steps :
      (es : List (Event E)) (result : Result E A) (hs : List (Happening E A))
      (s : CancellationScope E)
      → s.reason ≡ none
      → race timeout aborted (map to_scope es ++ work_ends result ∷ hs) s
        ≡ ended timeout aborted (steps timeout es s).reason (some result)
  unfolding race steps
  race-steps [] result hs s h = rw h
  race-steps (e ∷ es) result hs s h =
      let next = step timeout e s in
      ended-steps es result next next.reason _ refl (race-steps es result hs next)

  -- Whatever happens to a scope before the work of a run ends, the run ends with the error of the
  -- first reason for which the scope was aborted, if there is one by then, and with the result of
  -- the work otherwise; what happens later changes nothing.
  pub run-steps :
      (es : List (Event E)) (result : Result E A) (hs : List (Happening E A))
      (s : CancellationScope E)
      → run timeout aborted (map to_scope es ++ work_ends result ∷ hs) s
        ≡ ended timeout aborted (steps timeout es s).reason (some result)
  unfolding run
  run-steps es result hs s = ended-steps es result s s.reason _ refl (race-steps es result hs s)
