-- ===== src/Runner/Counts.antt =====
-- The events of an evaluation account for every rule on the event.
use test_assestment.Common.{
  ℕ, suc, ◌+◌, String, Bool, true, false, Option, none, some, get_or, List, [], ◌∷◌, length,
  if◌then◌else◌, Result, ok, throw, Result-cases, inl, inr, ◌≡◌, refl, sym, ◌∙◌, arith, ap,
}
use test_assestment.JsMap.{get}
use test_assestment.Entities.{Args, Error, BaseCtx, WhenNode, RegisteredRule, Registry}
use test_assestment.Strategies.{
  skipped, when_false, PendingAction, Run, Step, ◌>>=◌, done, emit, throw_if_aborted,
}
use test_assestment.Strategies.Tally.{
  matches, skips, Silent, Verdict, one, zero_if, bind-Adds, bind-Returns, report_false, quiet,
  emit-Adds, after, bind-inv,
}
use test_assestment.Strategies.Verdicts.{
  see_abort-events, throw_if_aborted-Silent, done-Silent, done-Returns,
  handle_rule_strategy-Verdict,
}
use test_assestment.Runner.{
  EventEnvelope, make_rule_base_ctx, finish, walk_when, check_when, apply_rule, run_rule, run_rules,
  run_queued, begin, run_begun, run,
}

abbrev ok_of : ℕ → Result Error ℕ
ok_of n = ok n

ok_inv : (a b : ℕ) → ok_of a ≡ ok_of b → a ≡ b
ok_inv a b e = ap (λ r. elim r [ ok n ↦ n | throw x ↦ 0 ]) e

-- The last actions emit none of the events that are counted.
finish-events :
    (now : ℕ) (ps : List PendingAction) (s : Run) → (finish now ps s).1.events ≡ s.events
finish-events now [] s = refl
finish-events now (p ∷ ps) s = elim (Result-cases (throw_if_aborted s).0) [
  | inr (e, h) ↦ rw (h, finish) (see_abort-events s.aborts s)
  | inl (u, h) ↦ rw (h, finish) (see_abort-events s.aborts s)
]

add_first :
    (fired : Bool) (n n' m0 m1 m2 k0 k1 k2 l : ℕ)
    → (if fired then suc n' else n') ≡ n
    → m1 ≡ m0 + one fired
    → k1 ≡ k0 + zero_if fired
    → m2 ≡ m1 + n'
    → k2 + n' ≡ k1 + l
    → (m2 ≡ m0 + n) × (k2 + n ≡ k0 + suc l)
add_first true n n' m0 m1 m2 k0 k1 k2 l t a b c d =
    let same : suc n' ≡ n = t in (omega arith, omega arith)
add_first false n n' m0 m1 m2 k0 k1 k2 l t a b c d =
    let same : n' ≡ n = t in (omega arith, omega arith)

module _ (json : Args → String) (reg : Registry) (envelope : EventEnvelope) (delivery_id : String)
    (started_at : ℕ) (clock : RegisteredRule → ℕ) where
  check_when-Silent :
      (ctx : BaseCtx) (when : Option WhenNode)
      → Silent (check_when json reg envelope delivery_id started_at clock ctx when)
  unfolding check_when
  check_when-Silent ctx none = done-Silent true
  check_when-Silent ctx (some n) =
      after _ _ (quiet (walk_when json reg envelope delivery_id started_at clock ctx n) (λ s. refl))
        (λ b. after _ _ throw_if_aborted-Silent (λ u. done-Silent b))

  apply_rule-Verdict :
      (rule : RegisteredRule) (ctx : BaseCtx) (holds : Bool)
      → Verdict (apply_rule json reg envelope delivery_id started_at clock rule ctx holds)
  unfolding apply_rule matches skips
  apply_rule-Verdict rule ctx true =
      handle_rule_strategy-Verdict reg.action_by_name rule ctx (clock rule) rule.strategy
  apply_rule-Verdict rule ctx false =
      report_false _
        (bind-Adds _ _ (emit-Adds (skipped rule.name when_false)) (λ u. done-Silent false))
        (bind-Returns false (emit (skipped rule.name when_false)) _ (λ u. done-Returns false))

  run_rule-Verdict :
      (rule : RegisteredRule)
      → Verdict (run_rule json reg envelope delivery_id started_at clock rule)
  unfolding run_rule
  run_rule-Verdict rule =
      let ctx = make_rule_base_ctx rule envelope delivery_id started_at in
      after _ _ throw_if_aborted-Silent
        (λ u. after _ _ (check_when-Silent ctx rule.when) (apply_rule-Verdict rule ctx))

  -- Matches count the rules that fired, and the skips are the others.
  abbrev pub Accounts : List RegisteredRule → Run → Run → ℕ → Type 0
  Accounts rules s s' n =
      (matches s'.events ≡ matches s.events + n)
      × (skips s'.events + n ≡ skips s.events + length rules)

  run_rules-Accounts :
      (rules : List RegisteredRule) (s : Run) (n : ℕ)
      → (run_rules json reg envelope delivery_id started_at clock rules s).0 ≡ ok n
      → Accounts rules s (run_rules json reg envelope delivery_id started_at clock rules s).1 n
  unfolding run_rules
  run_rules-Accounts [] s n e = let zero_of : n ≡ 0 = ground arith in (omega arith, omega arith)
  run_rules-Accounts (rule ∷ rules) s n e =
      let first = run_rule json reg envelope delivery_id started_at clock rule in
      let others = run_rules json reg envelope delivery_id started_at clock rules in
      let add : Bool → ℕ → Step ℕ = λ fired n'. done (if fired then suc n' else n') in
      let (fired, h, ran) = bind-inv first (λ b. others >>= add b) s n e in
      let (n', h', ran') = bind-inv others (add fired) (first s).1 n (rw ran at e) in
      let last : (others >>= add fired) (first s).1 ≡ add fired n' (others (first s).1).1 = ran' in
      let whole = ran ∙ last in
      let total = ok_inv (if fired then suc n' else n') n (sym (ap (λ r. r.0) whole) ∙ e) in
      let (m', k') = run_rules-Accounts rules (first s).1 n' h' in
      let v = run_rule-Verdict rule in
      rw whole (
        add_first fired n n' _ _ _ _ _ _ _ total (v.adds_matches s fired h) (v.adds_skips s fired h)
          m' k')

  run_begun-Accounts :
      (now : ℕ) (s : Run) (n : ℕ)
      → (run_begun json reg envelope delivery_id started_at clock now s).0 ≡ ok n
      → Accounts
          (get_or (get envelope.name reg.dispatch) [])
          s
          (run_begun json reg envelope delivery_id started_at clock now s).1
          n
  unfolding run_begun
  run_begun-Accounts now s n e =
      let rules = get_or (get envelope.name reg.dispatch) [] in
      let walk = run_rules json reg envelope delivery_id started_at clock rules in
      let queued = run_queued json reg envelope delivery_id started_at clock now in
      let give : ℕ → Unit {0} → Step ℕ = λ c u. done c in
      let (c, h, ran) = bind-inv walk (λ k. queued >>= give k) s n e in
      let (u, h', ran') = bind-inv queued (give c) (walk s).1 n (rw ran at e) in
      let whole = ran ∙ ran' in
      let same = ok_inv c n (sym (ap (λ r. r.0) whole) ∙ e) in
      let (m, k) = run_rules-Accounts rules s c h in
      let quiet_end = finish-events now (walk s).1.pending (walk s).1 in
      rw (whole, ← same) (ap matches quiet_end ∙ m, ap (λ es. skips es + c) quiet_end ∙ k)

  -- An evaluation that completes with a count of matched rules has emitted exactly so many
  -- matches, and one skip for each other rule on the event.
  pub run-Accounts :
      (now : ℕ) (s : Run) (n : ℕ)
      → (run json reg envelope delivery_id started_at clock now s).0 ≡ ok n
      → Accounts
          (get_or (get envelope.name reg.dispatch) [])
          s
          (run json reg envelope delivery_id started_at clock now s).1
          n
  unfolding run
  run-Accounts now s n e = run_begun-Accounts now (begin s) n e
