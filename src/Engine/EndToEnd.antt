-- ===== src/Engine/EndToEnd.antt =====
-- From a batch to the events of an evaluation.
use test_assestment.Common.{
  ℕ, String, none, some, [], ◌∷◌, ◌++◌, filter, ◌==◌, ok, throw, Result-cases, inl, inr, ◌≡◌, refl,
  sym, ◌∙◌, ap, subst,
}
use test_assestment.Entities.{Args, RegisteredRule, RegisterBatch, Registry}
use test_assestment.Registration.{build_registry}
use test_assestment.Registration.Accepted.{Registered, build_registry-Registered}
use test_assestment.Runner.{EventEnvelope, run}
use test_assestment.Runner.Counts.{Accounts, run-Accounts}
use test_assestment.Engine.{
  evaluation_completed, Engine, register, run_evaluation, evaluate_with, evaluate,
}

-- The evaluation is reported once, with a count of matches that accounts for every rule of the
-- batch on the event.
pub record Reported (json : Args → String) (reg : Registry) (clock : RegisteredRule → ℕ)
    (started_at : ℕ) (batch : RegisterBatch) (envelope : EventEnvelope) (delivery_id : String)
    (e e' : Engine) : Type 0 where
  pub matched_count : ℕ
  pub completed : e'.events ≡ e.events ++ evaluation_completed delivery_id matched_count ∷ []
  pub accounts :
      Accounts json reg envelope delivery_id started_at clock
        (filter (λ r. r.event_name == envelope.name) batch.rules)
        e.run_state
        e'.run_state
        matched_count

register-ok :
    (batch : RegisterBatch) (e : Engine)
    → (register batch e).0 ≡ ok tt
    → (reg : Registry) × (build_registry batch ≡ ok reg)
      × ((register batch e).1 ≡ record e { registry = some reg })
unfolding register
register-ok batch e h = elim (Result-cases (build_registry batch)) [
  | inl (reg, b) ↦ (reg, b, rw (b, register))
  | inr (issues, b) ↦ let refused : throw issues ≡ ok tt = rw (b, register) at h in cc
]

module _ (json : Args → String) (clock : RegisteredRule → ℕ) (started_at ended_at : ℕ) where
  run_evaluation-Reported :
      (reg : Registry) (batch : RegisterBatch) (envelope : EventEnvelope) (delivery_id : String)
      (e : Engine)
      → Registered batch reg
      → (run_evaluation json clock started_at ended_at none reg envelope delivery_id e).0 ≡ ok tt
      → Reported json reg clock started_at batch envelope delivery_id e
          (run_evaluation json clock started_at ended_at none reg envelope delivery_id e).1
  unfolding run_evaluation
  run_evaluation-Reported reg batch envelope delivery_id e v h =
      elim (Result-cases
        (run json reg envelope delivery_id started_at clock ended_at e.run_state).0) [
          | inr (x, b) ↦ let failed : throw x ≡ ok tt = rw (b, run_evaluation) at h in cc
          | inl (n, b) ↦
              let counted =
                run-Accounts json reg envelope delivery_id started_at clock ended_at e.run_state n
                  b in
              rw (b, run_evaluation)
                (record {
                  matched_count = n;
                  completed = refl;
                  accounts = rw (← v.dispatch_lem envelope.name) counted;
                })
        ]

  evaluate-Reported :
      (reg : Registry) (batch : RegisterBatch) (envelope : EventEnvelope) (delivery_id : String)
      (e : Engine)
      → e.registry ≡ some reg
      → Registered batch reg
      → (evaluate json clock started_at ended_at none envelope delivery_id e).0 ≡ ok tt
      → Reported json reg clock started_at batch envelope delivery_id e
          (evaluate json clock started_at ended_at none envelope delivery_id e).1
  unfolding evaluate evaluate_with
  evaluate-Reported reg batch envelope delivery_id e r v h =
      let opened : evaluate json clock started_at ended_at none envelope delivery_id e
          ≡ run_evaluation json clock started_at ended_at none reg envelope delivery_id e =
        ap (λ o. evaluate_with json clock started_at ended_at none o envelope delivery_id e) r in
      subst (λ x. Reported json reg clock started_at batch envelope delivery_id e x.1) (sym opened)
        (run_evaluation-Reported reg batch envelope delivery_id e v
          (sym (ap (λ x. x.0) opened) ∙ h))

  -- When a batch is accepted and the next evaluation, which nothing cuts off, resolves, exactly
  -- one completion is emitted for it, whose count is that of the matches emitted, and the skips
  -- emitted are as many as the other rules of the batch on the event.
  pub evaluate-register :
      (batch : RegisterBatch) (envelope : EventEnvelope) (delivery_id : String) (e : Engine)
      → (register batch e).0 ≡ ok tt
      → (evaluate json clock started_at ended_at none envelope delivery_id (register batch e).1).0
        ≡ ok tt
      → (reg : Registry) × Reported json reg clock started_at batch envelope delivery_id
          (register batch e).1
          (evaluate json clock started_at ended_at none envelope delivery_id (register batch e).1).1
  evaluate-register batch envelope delivery_id e h k =
      let (reg, built, kept) = register-ok batch e h in
      (
        reg,
        evaluate-Reported reg batch envelope delivery_id (register batch e).1
            (ap (λ x. x.registry) kept) (build_registry-Registered batch reg built) k,
      )
