-- ===== src/ScheduledRun/Settling.antt =====
-- What one check does to the store.
use test_assestment.Common.{
  ℕ, ◌+◌, ◌≤◌, String, false, ◌&&◌, Option, none, some, ok, throw, Result-cases, Option-cases,
  Bool-cases, inl, inr, ◌≡◌, refl, ◌∙◌, arith, ◌==◌,
}
use test_assestment.JsMap.{Map, get}
use test_assestment.Duration.{Duration, parse_duration}
use test_assestment.Entities.{
  Error, AnyRegisteredAction, CheckResult, pass, skip, recheck, RuleStrategy, plain, aggregate,
  schedule, RegisteredRule, Registry, duration_error,
}
use test_assestment.Actions.{Settled}
use test_assestment.ScheduledStore
use test_assestment.ScheduledStore.{ScheduledCheck, Store, reschedule, find}
use test_assestment.ScheduledStore.Records.{find-remove, find-reschedule}
use test_assestment.ScheduledRun.{
  ScheduledOutcome, rechecked, passed, skipped, deadline_exceeded, World, Check, Progress,
  emit_checked, remove_and_emit, is_over, settle_recheck, settle, run_rule, run_actions,
  scheduled_actions, make_scheduled_base_ctx, make_scheduled_view, make_scheduled_check_ctx,
  check_result, run_scheduled_check,
}

abbrev pub Within : Option ℕ → ℕ → Type 0
Within none run_at = Unit
Within (some deadline) run_at = run_at ≤ deadline

-- A check fails and changes nothing; or its record goes, with an event where the rule still
-- schedules; or its record stays, to be checked again no later than its deadline.
pub data Settles (w : World) (rec : Check) (p : Progress) : Settled × Progress → Type 0 where
  fails : (e : Error) → Settles w rec p (throw e, p)
  ends : (outcome : ScheduledOutcome) → Settles w rec p (ok tt, remove_and_emit rec outcome p)
  drops :
      Settles w rec p
        (ok tt, record p { store = ScheduledStore.remove rec.rule_id rec.key_id p.store })
  waits :
      (run_at : ℕ)
      → w.checked_at ≤ run_at
      → Within rec.deadline run_at
      → Settles w rec p (
        ok tt,
        emit_checked rec rechecked
            (record p { store = reschedule rec.rule_id rec.key_id run_at p.store }),
      )

is_over-Within :
    (deadline : Option ℕ) (run_at : ℕ) → is_over deadline run_at ≡ false → Within deadline run_at
is_over-Within none run_at h = tt
is_over-Within (some d) run_at h = ground arith

settle_recheck-Settles :
    (w : World) (rec : Check) (delay : Duration) (p : Progress)
    → Settles w rec p (settle_recheck rec w.checked_at delay p)
unfolding settle_recheck
settle_recheck-Settles w rec delay p = elim (Result-cases (parse_duration delay)) [
  | inr (e, h) ↦ rw (h, settle_recheck) (fails (duration_error e))
  | inl (ms, h) ↦ elim (Bool-cases (is_over rec.deadline (w.checked_at + ms))) [
    | inl b ↦ rw (h, settle_recheck, b) (ends deadline_exceeded)
    | inr b ↦
        rw (h, settle_recheck, b)
          (waits (w.checked_at + ms) (omega arith) (is_over-Within rec.deadline _ b))
  ]
]

settle-Settles :
    (known : Map AnyRegisteredAction) (rule : RegisteredRule) (w : World) (rec : Check)
    (result : CheckResult) (p : Progress)
    → Settles w rec p (settle known rule w rec result p)
unfolding settle
settle-Settles known rule w rec pass p =
    elim (Result-cases (
      run_actions w.actions_aborted (
        scheduled_actions known (make_scheduled_base_ctx rec rule w.ran_at)
          (make_scheduled_view rec w.ran_at) rule.actions))) [
            | inl (u, h) ↦ rw (h, settle) (ends passed)
            | inr (e, h) ↦ rw (h, settle) (fails e)
          ]
settle-Settles known rule w rec skip p = ends skipped
settle-Settles known rule w rec (recheck delay) p = settle_recheck-Settles w rec delay p

run_rule-Settles :
    (known : Map AnyRegisteredAction) (rule : RegisteredRule) (w : World) (rec : Check)
    (strategy : RuleStrategy) (p : Progress)
    → Settles w rec p (run_rule known rule w rec strategy p)
run_rule-Settles known rule w rec plain p = drops
run_rule-Settles known rule w rec (aggregate s) p = drops
run_rule-Settles known rule w rec (schedule s) p =
    elim (Result-cases
      (check_result w.check_aborted (s.check (make_scheduled_check_ctx rec rule w.ran_at)))) [
        | inl (result, h) ↦ rw (h, run_rule) (settle-Settles known rule w rec result p)
        | inr (e, h) ↦ rw (h, run_rule) (fails e)
      ]

-- With a registry, a scheduled check either throws and leaves the store and the events as they
-- were, or removes its record, with or without an event, or moves its record to a time that is no
-- earlier than the end of the check and no later than its deadline.
pub run_scheduled_check-Settles :
    (reg : Registry) (w : World) (rec : Check) (p : Progress)
    → Settles w rec p (run_scheduled_check (some reg) w rec p)
unfolding run_scheduled_check
run_scheduled_check-Settles reg w rec p = elim (Option-cases (get rec.rule_id reg.rules)) [
  | inl h ↦ rw (h, run_scheduled_check) drops
  | inr (rule, h) ↦
      rw (h, run_scheduled_check) (run_rule-Settles reg.action_by_name rule w rec rule.strategy p)
]

-- A check leaves the records of all other rules and keys as they were.
Settles-find :
    (w : World) (rec : Check) (p : Progress) (r k : String) (run : Settled × Progress)
    → (rec.rule_id == r && rec.key_id == k) ≡ false
    → Settles w rec p run
    → find r k run.1.store ≡ find r k p.store
Settles-find w rec p r k run ne (fails e) = refl
Settles-find w rec p r k run ne (ends o) = find-remove rec.rule_id rec.key_id r k p.store ∙ rw ne
Settles-find w rec p r k run ne drops = find-remove rec.rule_id rec.key_id r k p.store ∙ rw ne
Settles-find w rec p r k run ne (waits run_at h d) =
    find-reschedule rec.rule_id rec.key_id r k run_at p.store ∙ rw ne

-- With a registry, a scheduled check leaves the records of every other rule or key as they were.
pub run_scheduled_check-find :
    (reg : Registry) (w : World) (rec : Check) (p : Progress) (r k : String)
    → (rec.rule_id == r && rec.key_id == k) ≡ false
    → find r k (run_scheduled_check (some reg) w rec p).1.store ≡ find r k p.store
run_scheduled_check-find reg w rec p r k ne =
    Settles-find w rec p r k (run_scheduled_check (some reg) w rec p) ne
      (run_scheduled_check-Settles reg w rec p)
