-- ===== src/Predicates/Memo.antt =====
-- The memo changes no answer: a tree is worth what its leaves are worth on their own.
use test_assestment.Common.{
  String, Bool, false, none, some, [], ◌≡◌, refl, sym, ◌∙◌, Bool-cases, inl, inr, Option-cases, ok,
  throw, Result-cases, ◌==◌, eq_iff, arith,
}
use test_assestment.JsMap.{Map, get}
use test_assestment.JsMap.Laws.{get-set}
use test_assestment.Entities.{Args, BaseCtx, UseRef, RegisteredPredicate, WhenNode}
use test_assestment.Arguments.{resolve_args, overlay}
use test_assestment.When.Meaning.{Fits, meaning, evaluate_when-meaning}
use test_assestment.Predicates.{
  Evaluation, fail, judge, memo_key, use_memo, resolve_use, evaluate_rule_when,
}

-- What a leaf is worth without a memo.
unfoldable pub answer : Map RegisteredPredicate → BaseCtx → UseRef → Bool
answer predicates ctx r = elim (get r.name predicates) [
  | none ↦ false
  | some pred ↦ elim (resolve_args ctx r.args) [
    | throw e ↦ fail pred r []
    | ok use_args ↦ judge pred r ctx (overlay pred.pinned_args use_args)
  ]
]

-- The leaf comes to look for this key.
pub record Asks (json : Args → String) (predicates : Map RegisteredPredicate) (ctx : BaseCtx)
    (r : UseRef) (key : String) : Type 0 where
  pub pred : RegisteredPredicate
  pub use_args : Args
  pub found : get r.name predicates ≡ some pred
  pub resolved : resolve_args ctx r.args ≡ ok use_args
  pub same : memo_key json predicates ctx r (overlay pred.pinned_args use_args) ≡ key

-- Leaves that look for one key are worth the same.
abbrev pub KeyDetermines : (Args → String) → Map RegisteredPredicate → BaseCtx → Type 0
KeyDetermines json predicates ctx =
    (key : String) (r r' : UseRef)
    → Asks json predicates ctx r key
    → Asks json predicates ctx r' key
    → answer predicates ctx r ≡ answer predicates ctx r'

-- Each memo entry is what every leaf that looks for it is worth.
unfoldable pub Coherent : (Args → String) → Map RegisteredPredicate → BaseCtx → Evaluation → Type 0
Coherent json predicates ctx s =
    (key : String) (b : Bool)
    → get key s.memo ≡ some b
    → (r : UseRef) → Asks json predicates ctx r key
    → answer predicates ctx r ≡ b

module _ (json : Args → String) (predicates : Map RegisteredPredicate) (ctx : BaseCtx)
    (determines : KeyDetermines json predicates ctx) where
  use_memo-answer :
      (pred : RegisteredPredicate) (r : UseRef) (use_args : Args) (s : Evaluation)
      → get r.name predicates ≡ some pred
      → resolve_args ctx r.args ≡ ok use_args
      → Coherent json predicates ctx s
      → let run = use_memo json predicates ctx pred r (overlay pred.pinned_args use_args) s in
        (run.0 ≡ answer predicates ctx r) × Coherent json predicates ctx run.1
  unfolding use_memo Coherent answer
  use_memo-answer pred r use_args s f a c =
      let merged = overlay pred.pinned_args use_args in
      let asks : Asks json predicates ctx r (memo_key json predicates ctx r merged) = record {
        pred = pred;
        use_args = use_args;
        found = f;
        resolved = a;
        same = refl;
      } in
      let worth : answer predicates ctx r ≡ judge pred r ctx merged = rw (f, answer, a) in
      elim (Option-cases (get (memo_key json predicates ctx r merged) s.memo)) [
        | inr (b, h) ↦ rw (h, use_memo) (sym (c _ b h r asks), c)
        | inl h ↦
            rw (h, use_memo)
              (
                sym worth,
                λ key b e r' asks'.
                    elim (Bool-cases (memo_key json predicates ctx r merged == key)) [
                      | inl same ↦
                          let here = (eq_iff (memo_key json predicates ctx r merged) key).0 same in
                          let put : some (judge pred r ctx merged) ≡ some b =
                            rw (get-set, same) at e in
                          let value : judge pred r ctx merged ≡ b = ground arith in
                          determines key r' r asks' (rw (← here) asks) ∙ worth ∙ value
                      | inr other ↦ c key b (rw (get-set, other) at e) r' asks'
                    ],
              )
      ]

  resolve_use-answer :
      (r : UseRef) (s : Evaluation)
      → Coherent json predicates ctx s
      → let run = resolve_use json predicates ctx r s in
        (run.0 ≡ answer predicates ctx r) × Coherent json predicates ctx run.1
  unfolding resolve_use Coherent answer
  resolve_use-answer r s c = elim (Option-cases (get r.name predicates)) [
    | inl f ↦ rw (f, resolve_use, answer) (refl, c)
    | inr (pred, f) ↦ elim (Result-cases (resolve_args ctx r.args)) [
      | inr (e, a) ↦ rw (f, resolve_use, answer, a) (refl, c)
      | inl (use_args, a) ↦
          rw (f, a, resolve_use) (unfold Coherent in use_memo-answer pred r use_args s f a c)
    ]
  ]

  pub evaluate_rule_when-Coherent :
      (n : WhenNode) (s : Evaluation)
      → Coherent json predicates ctx s
      → Fits n 1
      → let run = evaluate_rule_when json predicates ctx n s in
        (run.0 ≡ meaning (answer predicates ctx) ctx n) × Coherent json predicates ctx run.1
  unfolding evaluate_rule_when
  evaluate_rule_when-Coherent n s c h =
      evaluate_when-meaning (resolve_use json predicates ctx) ctx (Coherent json predicates ctx)
        (answer predicates ctx) resolve_use-answer n s c h
