-- ===== src/Predicates.antt =====
-- A `use` leaf of a `when` tree: resolveUse of engine/src/engine/predicates.ts, with the memo of
-- one event and the events that are emitted, without their times. `canonical_json` is an argument.
pub mod Memo
mod Tests
use test_assestment.Common.{
  String, Bool, true, false, ◌||◌, Option, none, some, List, [], ◌∷◌, ◌++◌, str_append,
  if◌then◌else◌, Result, ok, throw,
}
use test_assestment.JsMap.{Map, get, set}
use test_assestment.Entities.{
  Value, boolean, undefined, null, number, text, array, object, Args, Error, BaseCtx, UseArg, plain,
  callback, UseRef, RegisteredPredicate, WhenNode,
}
use test_assestment.Arguments.{resolve_args, overlay, parse_args}
use test_assestment.When.{evaluate_when}

pub record PredicateEvaluated : Type 0 where
  pub predicate_name : String
  pub result : Bool
  pub cached : Bool

pub record Evaluation : Type 0 where
  pub memo : Map Bool
  pub events : List PredicateEvaluated

-- `v === true`
abbrev pub is_true : Option Value → Bool
is_true none = false
is_true (some (boolean b)) = b
is_true (some undefined) = false
is_true (some null) = false
is_true (some (number n)) = false
is_true (some (text t)) = false
is_true (some (array vs)) = false
is_true (some (object fs)) = false

abbrev pub plain_value : Option UseArg → Option Value
plain_value none = none
plain_value (some (plain v)) = some v
plain_value (some (callback f)) = none

-- What the leaf is worth when anything throws.
unfoldable pub fail : RegisteredPredicate → UseRef → Args → Bool
fail pred r merged =
    is_true (get "failOpen" pred.pinned_args)
    || (is_true (plain_value (get "failOpen" r.args)) || is_true (get "failOpen" merged))

-- The promise of a fresh evaluation.
unfoldable pub judge : RegisteredPredicate → UseRef → BaseCtx → Args → Bool
unfolding fail
judge pred r ctx merged = elim (parse_args pred.args_schema merged) [
  | throw e ↦ fail pred r merged
  | ok parsed ↦ elim (pred.fn (record ctx { args = parsed })) [
    | throw e ↦ fail pred r merged
    | ok b ↦ b
  ]
]

module _ (canonical_json : Args → String) (predicates : Map RegisteredPredicate)
    (ctx : BaseCtx) where
  abbrev pub memo_key : UseRef → Args → String
  memo_key r merged = str_append r.name (str_append "@" (canonical_json merged))

  abbrev pub emit : UseRef → Bool → Bool → List PredicateEvaluated → List PredicateEvaluated
  emit r result cached events =
      events ++ record { predicate_name = r.name; result = result; cached = cached } ∷ []

  unfoldable pub use_memo : RegisteredPredicate → UseRef → Args → Evaluation → Bool × Evaluation
  unfolding judge
  use_memo pred r merged s = elim (get (memo_key r merged) s.memo) [
    | some result ↦ (result, record s { events = emit r result true s.events })
    | none ↦
        let result = judge pred r ctx merged in
        (
          result,
          record s {
            memo = set (memo_key r merged) result s.memo;
            events = emit r result false s.events;
          },
        )
  ]

  unfoldable pub resolve_use : UseRef → Evaluation → Bool × Evaluation
  unfolding use_memo fail
  resolve_use r s = elim (get r.name predicates) [
    | none ↦ (false, s)
    | some pred ↦ elim (resolve_args ctx r.args) [
      | throw e ↦
          let result = fail pred r [] in
          (result, record s { events = emit r result false s.events })
      | ok use_args ↦ use_memo pred r (overlay pred.pinned_args use_args) s
    ]
  ]

  -- `evaluateWhen` with the leaves of this file
  unfoldable pub evaluate_rule_when : WhenNode → Evaluation → Bool × Evaluation
  unfolding evaluate_when
  evaluate_rule_when n s = evaluate_when resolve_use ctx n s
