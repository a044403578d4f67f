-- ===== src/Worker/Attempts.antt =====
-- A check that keeps failing is tried ten times, and then removed.
use test_assestment.Common.{
  ℕ, ◌*◌, max, ◌+◌, ◌<◌, String, true, Option, none, get_or, List, [], ◌∷◌, ◌++◌, ltb, length,
  Result-cases, Bool-cases, inl, inr, ◌≡◌, refl, ◌∙◌, arith, str_eq_refl,
}
use test_assestment.JsMap.{get}
use test_assestment.JsMap.Laws.{
  AllValues, set-AllValues, delete-AllValues, get-set_self, get-delete,
}
use test_assestment.Entities.{Error, Registry}
use test_assestment.ScheduledStore.{find, claim}
use test_assestment.ScheduledStore.Records.{find-remove}
use test_assestment.ScheduledRun.{World, Check, run_scheduled_check}
use test_assestment.Worker.{
  Worker, default_scheduled_max_attempts, attempt_key, handle_scheduled_failure, fail_check,
  process_record, process_records, process_claim,
}

module _ (show : ℕ → String) where
  -- Rounds in which the check throws, one after another.
  pub fail_each : Check → List Error → Worker → Worker
  fail_each rec [] w = w
  fail_each rec (e ∷ es) w = fail_each rec es (fail_check show rec e w)

  abbrev pub failed_so_far : Check → Worker → ℕ
  failed_so_far rec w = get_or (get (attempt_key show rec) w.attempts) 0

  fail_check-count :
      (rec : Check) (e : Error) (w : Worker)
      → failed_so_far rec w + 1 < default_scheduled_max_attempts
      → (failed_so_far rec (fail_check show rec e w) ≡ failed_so_far rec w + 1)
        × ((fail_check show rec e w).progress.store ≡ w.progress.store)
  unfolding fail_check handle_scheduled_failure
  fail_check-count rec e w h =
      let more : ltb (failed_so_far rec w + 1) default_scheduled_max_attempts ≡ true =
        ground arith in
      rw (more, handle_scheduled_failure, get-set_self) (refl, refl)

  fail_check-last :
      (rec : Check) (e : Error) (w : Worker)
      → failed_so_far rec w ≡ 9
      → (failed_so_far rec (fail_check show rec e w) ≡ 0)
        × (find rec.rule_id rec.key_id (fail_check show rec e w).progress.store ≡ none)
  unfolding fail_check handle_scheduled_failure
  fail_check-last rec e w h =
      rw
        (
          h, handle_scheduled_failure, get-delete, str_eq_refl, find-remove, str_eq_refl,
          str_eq_refl,
        )
        (refl, refl)

  fail_each-count :
      (rec : Check) (es : List Error) (w : Worker)
      → failed_so_far rec w + length es < default_scheduled_max_attempts
      → (failed_so_far rec (fail_each rec es w) ≡ failed_so_far rec w + length es)
        × ((fail_each rec es w).progress.store ≡ w.progress.store)
  unfolding fail_each
  fail_each-count rec [] w h = (omega arith, refl)
  fail_each-count rec (e ∷ es) w h =
      let (c, s) = fail_check-count rec e w (omega arith) in
      let (c', s') = fail_each-count rec es (fail_check show rec e w) (omega arith) in
      (omega arith, s' ∙ s)

  fail_each-append :
      (rec : Check) (es : List Error) (e : Error) (w : Worker)
      → fail_each rec (es ++ e ∷ []) w ≡ fail_check show rec e (fail_each rec es w)
  unfolding fail_each
  fail_each-append rec [] e w = refl
  fail_each-append rec (f ∷ es) e w = fail_each-append rec es e (fail_check show rec f w)

  -- A check without failures so far that throws nine times leaves the store as it was, and once it
  -- throws a tenth time its record is gone and its count is back at zero.
  pub tenth_failure :
      (rec : Check) (es : List Error) (e : Error) (w : Worker)
      → failed_so_far rec w ≡ 0
      → length es ≡ 9
      → let last = fail_each rec (es ++ e ∷ []) w in
        ((fail_each rec es w).progress.store ≡ w.progress.store)
        × (find rec.rule_id rec.key_id last.progress.store ≡ none)
        × (failed_so_far rec last ≡ 0)
  tenth_failure rec es e w h n =
      let (c, s) = fail_each-count rec es w (omega arith) in
      let nine : failed_so_far rec (fail_each rec es w) ≡ 9 = omega arith in
      let (zeroed, gone) = fail_check-last rec e (fail_each rec es w) nine in
      (s, rw (fail_each-append rec es e w) gone, rw (fail_each-append rec es e w) zeroed)

  -- No count reaches ten.
  abbrev pub Bounded : Worker → Type 0
  Bounded w = AllValues (λ n. n < default_scheduled_max_attempts) w.attempts

  fail_check-Bounded :
      (rec : Check) (e : Error) (w : Worker) → Bounded w → Bounded (fail_check show rec e w)
  unfolding fail_check handle_scheduled_failure
  fail_check-Bounded rec e w b =
      elim (Bool-cases (ltb (failed_so_far rec w + 1) default_scheduled_max_attempts)) [
        | inl more ↦
            rw (more, handle_scheduled_failure)
              (set-AllValues (λ n. n < default_scheduled_max_attempts) (attempt_key show rec)
                (failed_so_far rec w + 1) w.attempts b (ground arith))
        | inr over ↦
            rw (over, handle_scheduled_failure)
              (delete-AllValues (λ n. n < default_scheduled_max_attempts) (attempt_key show rec)
                w.attempts b)
      ]

  process_record-Bounded :
      (reg : Option Registry) (world : World) (rec : Check) (w : Worker)
      → Bounded w
      → Bounded (process_record show reg world rec w)
  unfolding process_record
  process_record-Bounded reg world rec w b =
      elim (Result-cases (run_scheduled_check reg world rec w.progress).0) [
        | inl (u, h) ↦
            rw (h, process_record)
              (delete-AllValues (λ n. n < default_scheduled_max_attempts) (attempt_key show rec)
                w.attempts b)
        | inr (e, h) ↦ rw (h, process_record) (fail_check-Bounded rec e _ b)
      ]

  process_records-Bounded :
      (reg : Option Registry) (world : Check → World) (recs : List Check) (w : Worker)
      → Bounded w
      → Bounded (process_records show reg world recs w)
  unfolding process_records
  process_records-Bounded reg world [] w b = b
  process_records-Bounded reg world (rec ∷ recs) w b =
      process_records-Bounded reg world recs _ (process_record-Bounded reg (world rec) rec w b)

  -- Where no count of attempts reaches ten, none does after a round over the claimed records.
  pub process_claim-Bounded :
      (reg : Option Registry) (world : Check → World) (now poll_ms : ℕ) (w : Worker)
      → Bounded w
      → Bounded (process_claim show reg world now poll_ms w)
  unfolding process_claim
  process_claim-Bounded reg world now poll_ms w b =
      let (claimed, store) = claim now 100 (max (poll_ms * 2) 30_000) w.progress.store in
      process_records-Bounded reg world claimed
        (record w { progress = record w.progress { store = store } }) b
