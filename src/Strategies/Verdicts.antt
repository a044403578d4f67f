-- ===== src/Strategies/Verdicts.antt =====
-- Each strategy reports its rule once.
use test_assestment.Common.{
  ℕ, zero, suc, ◌+◌, String, Bool, true, false, Option, none, some, List, [], ◌∷◌, leb,
  if◌then◌else◌, Result, Option-cases, inl, inr, ◌≡◌, refl, ◌∙◌, arith,
}
use test_assestment.JsMap.{Map, get}
use test_assestment.Entities.{
  Value, Error, BaseCtx, AnyRegisteredAction, action, aggregated_action, scheduled_action,
  ActionAttachment, RuleStrategy, plain, aggregate, schedule, AggregateStrategy, ScheduleStrategy,
  RegisteredRule, RegisteredAggregatedAction,
}
use test_assestment.AggregationStore.{AggregationEntry, append_and_count}
use test_assestment.Strategies.{
  matched, skipped, aggregate_below_threshold, scheduled_enqueued, aggregate_appended, enqueued,
  PendingAction, pending_aggregated, Run, done, lift, emit, see_abort, throw_if_aborted,
  enqueue_pending, run_append, entry_time, duration_ms, deadline_ms, queue_plain_action,
  queue_plain_actions, handle_plain_strategy, queue_reached, append_for, append_found, append_all,
  conclude, handle_aggregate_strategy, run_enqueue, handle_schedule_strategy, handle_rule_strategy,
}
use test_assestment.Strategies.Tally.{
  matches, skips, Silent, Verdict, bind-Adds, quiet, emit-Adds, after, Returns, bind-Returns,
  report_true, report_false,
}

pub done-Silent : {A : Type 0} (a : A) → Silent (done a)
done-Silent a = quiet (done a) (λ s. refl)

pub done-Returns : (b : Bool) → Returns b (done b)
done-Returns b = record { returns = λ s a e. ground arith }

lift-Silent : {A : Type 0} (r : Result Error A) → Silent (lift r)
lift-Silent r = quiet (lift r) (λ s. refl)

pub see_abort-events : (o : Option (ℕ × Error)) (s : Run) → (see_abort o s).1.events ≡ s.events
see_abort-events none s = refl
see_abort-events (some (zero, e)) s = refl
see_abort-events (some (suc n, e)) s = refl

pub throw_if_aborted-Silent : Silent throw_if_aborted
throw_if_aborted-Silent = quiet throw_if_aborted (λ s. see_abort-events s.aborts s)

run_append-Silent :
    (rule agg key : String) (entry : AggregationEntry Value) (window_ms now : ℕ)
    → Silent (run_append rule agg key entry window_ms now)
run_append-Silent rule agg key entry window_ms now =
    quiet (run_append rule agg key entry window_ms now) (λ s.
      elim (Option-cases (append_and_count rule agg key entry window_ms now s.agg_store)) [
        | inl h ↦ rw (h, run_append)
        | inr (r, h) ↦ rw (h, run_append)
      ])

module _ (known : Map AnyRegisteredAction) (rule : RegisteredRule) (ctx : BaseCtx) (now : ℕ) where
  queue_plain_action-events :
      (att : ActionAttachment) (s : Run)
      → (queue_plain_action known rule ctx now att s).1.events ≡ s.events
  queue_plain_action-events att s = elim (Option-cases (get att.name known)) [
    | inl h ↦ rw (h, queue_plain_action)
    | inr (action a, h) ↦ rw (h, queue_plain_action)
    | inr (aggregated_action a, h) ↦ rw (h, queue_plain_action)
    | inr (scheduled_action a, h) ↦ rw (h, queue_plain_action)
  ]

  queue_plain_actions-events :
      (atts : List ActionAttachment) (s : Run)
      → (queue_plain_actions known rule ctx now atts s).1.events ≡ s.events
  unfolding queue_plain_actions
  queue_plain_actions-events [] s = refl
  queue_plain_actions-events (att ∷ atts) s =
      queue_plain_actions-events atts _ ∙ queue_plain_action-events att s

  queue_plain_actions-Silent :
      (atts : List ActionAttachment) → Silent (queue_plain_actions known rule ctx now atts)
  queue_plain_actions-Silent atts =
      quiet (queue_plain_actions known rule ctx now atts) (queue_plain_actions-events atts)

  conclude-Verdict : (fired : Bool) → Verdict (conclude known rule ctx now fired)
  unfolding conclude matches skips
  conclude-Verdict true =
      report_true _
        (bind-Adds _ _ (emit-Adds (matched rule.name))
          (λ u. after _ _ (queue_plain_actions-Silent rule.actions) (λ u'. done-Silent true)))
        (bind-Returns true (emit (matched rule.name)) _ (λ u.
          bind-Returns true (queue_plain_actions known rule ctx now rule.actions) _
            (λ u'. done-Returns true)))
  conclude-Verdict false =
      report_false _
        (bind-Adds _ _ (emit-Adds (skipped rule.name aggregate_below_threshold))
          (λ u. done-Silent false))
        (bind-Returns false (emit (skipped rule.name aggregate_below_threshold)) _
          (λ u. done-Returns false))

  plain-Verdict : Verdict (handle_plain_strategy known rule ctx now)
  unfolding handle_plain_strategy matches skips
  plain-Verdict = after _ _ throw_if_aborted-Silent (λ v.
      report_true _
        (bind-Adds _ _ (emit-Adds (matched rule.name))
          (λ u. after _ _ (queue_plain_actions-Silent rule.actions) (λ u'. done-Silent true)))
        (bind-Returns true (emit (matched rule.name)) _ (λ u.
          bind-Returns true (queue_plain_actions known rule ctx now rule.actions) _
            (λ u'. done-Returns true))))

  queue_reached-Silent :
      (reached : Bool) (p : PendingAction) → Silent (queue_reached known rule ctx now reached p)
  queue_reached-Silent true p = quiet (enqueue_pending p) (λ s. refl)
  queue_reached-Silent false p = done-Silent tt

  append_for-Silent :
      (threshold : ℕ) (key_id : String) (at window_ms : ℕ) (att : ActionAttachment)
      (agg : RegisteredAggregatedAction)
      → Silent (append_for known rule ctx now threshold key_id at window_ms att agg)
  unfolding append_for matches skips
  append_for-Silent threshold key_id at window_ms att agg =
      after _ _ (lift-Silent (agg.transform ctx)) (λ payload.
        after _ _ throw_if_aborted-Silent (λ u.
          after _ _ (run_append-Silent rule.name agg.name key_id _ window_ms now) (λ count.
            after _ _ (emit-Adds (aggregate_appended rule.name agg.name key_id count)) (λ u'.
              after _ _
                (queue_reached-Silent (leb threshold count)
                  (pending_aggregated agg att ctx rule.name key_id window_ms))
                (λ u''. done-Silent (leb threshold count))))))

  append_found-Silent :
      (threshold : ℕ) (key_id : String) (at window_ms : ℕ) (att : ActionAttachment)
      (found : Option AnyRegisteredAction)
      → Silent (append_found known rule ctx now threshold key_id at window_ms att found)
  append_found-Silent threshold key_id at window_ms att none = done-Silent false
  append_found-Silent threshold key_id at window_ms att (some (action a)) = done-Silent false
  append_found-Silent threshold key_id at window_ms att (some (aggregated_action a)) =
      append_for-Silent threshold key_id at window_ms att a
  append_found-Silent threshold key_id at window_ms att (some (scheduled_action a)) =
      done-Silent false

  append_all-Silent :
      (threshold : ℕ) (key_id : String) (at window_ms : ℕ) (fired : Bool)
      (atts : List ActionAttachment)
      → Silent (append_all known rule ctx now threshold key_id at window_ms fired atts)
  unfolding append_all
  append_all-Silent threshold key_id at window_ms fired [] = done-Silent fired
  append_all-Silent threshold key_id at window_ms fired (att ∷ atts) =
      after _ _ (append_found-Silent threshold key_id at window_ms att (get att.name known))
        (λ b. append_all-Silent threshold key_id at window_ms (if b then true else fired) atts)

  aggregate-Verdict :
      (strat : AggregateStrategy) → Verdict (handle_aggregate_strategy known rule ctx now strat)
  unfolding handle_aggregate_strategy
  aggregate-Verdict strat = after _ _ throw_if_aborted-Silent (λ u.
      after _ _ (lift-Silent (strat.key ctx)) (λ key_id.
        after _ _ (lift-Silent (entry_time known rule ctx now strat.at)) (λ at.
          after _ _ (lift-Silent (duration_ms strat.window)) (λ window_ms.
            after _ _ (append_all-Silent strat.count key_id at window_ms false rule.actions)
              conclude-Verdict))))

  run_enqueue-Silent :
      (key_id : String) (run_at : ℕ) (payload : Value) (deadline : Option ℕ)
      → Silent (run_enqueue known rule ctx now key_id run_at payload deadline)
  run_enqueue-Silent key_id run_at payload deadline =
      quiet (run_enqueue known rule ctx now key_id run_at payload deadline) (λ s. refl)

  schedule-Verdict :
      (strat : ScheduleStrategy) → Verdict (handle_schedule_strategy known rule ctx now strat)
  unfolding handle_schedule_strategy matches skips
  schedule-Verdict strat = after _ _ throw_if_aborted-Silent (λ u.
      after _ _ (lift-Silent (strat.key ctx)) (λ key_id.
        after _ _ (lift-Silent (strat.transform ctx)) (λ payload.
          after _ _ (lift-Silent (duration_ms strat.delay)) (λ delay.
            after _ _ (lift-Silent (deadline_ms known rule ctx now strat.deadline)) (λ deadline.
              after _ _ (run_enqueue-Silent key_id (now + delay) payload deadline) (λ u'.
                after _ _ (emit-Adds (enqueued rule.name key_id (now + delay))) (λ u''.
                  report_false _
                    (bind-Adds _ _ (emit-Adds (skipped rule.name scheduled_enqueued))
                      (λ v. done-Silent false))
                    (bind-Returns false (emit (skipped rule.name scheduled_enqueued)) _
                      (λ v. done-Returns false)))))))))

  pub handle_rule_strategy-Verdict :
      (strat : RuleStrategy) → Verdict (handle_rule_strategy known rule ctx now strat)
  unfolding handle_rule_strategy
  handle_rule_strategy-Verdict plain = plain-Verdict
  handle_rule_strategy-Verdict (aggregate strat) = aggregate-Verdict strat
  handle_rule_strategy-Verdict (schedule strat) = schedule-Verdict strat
