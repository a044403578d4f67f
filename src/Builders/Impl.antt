-- ===== src/Builders/Impl.antt =====
-- action, aggregatedAction, scheduledAction and predicate of engine/src/engine/builders: the files
-- action.ts, aggregated-action.ts, scheduled-action.ts and predicate.ts. What is registered reads
-- the implementation from the state of its builder when it is called, so a factory takes the state
-- when it is called itself and the state when its functions are.
pub mod Made
pub mod Late
use test_assestment.Common.{String, Bool, if◌then◌else◌, Option, none, some, get_or, [], Result, ok}
use test_assestment.Entities.{
  Value, Args, Schema, BaseCtx, AggregatedCtx, ScheduledCtx, RegisteredPredicate, RegisteredAction,
  RegisteredAggregatedAction, RegisteredScheduledAction, Error,
}
use test_assestment.Builders.{missing, is_unset}

pub record ImplState {ℓ} (I : Type ℓ) : Type ℓ where
  pub args_schema : Option Schema
  pub impl : Option I

pub data ImplCall {ℓ} (I : Type ℓ) : Type ℓ where
  args : Schema → ImplCall I
  fn : I → ImplCall I

module _ {ℓ} {I : Type ℓ} where
  unfoldable pub unset : ImplState I
  unset = record { args_schema = none; impl = none }

  unfoldable pub call : ImplCall I → ImplState I → ImplState I
  call (args schema) s = record s { args_schema = some schema }
  call (fn impl) s = record s { impl = some impl }

  -- The guards of a factory; an implementation is never taken away.
  abbrev pub made {κ} :
      {A : Type κ}
      → String
      → String
      → Option Schema
      → Option I
      → Option I
      → (Schema → I → A)
      → Result Error A
  made kind name none impl later build = missing kind name "args schema"
  made kind name (some schema) none later build = missing kind name "implementation"
  made kind name (some schema) (some impl) later build = ok (build schema (get_or later impl))

abbrev pub ActionImpl : Type 0
ActionImpl = BaseCtx → Result Error (Unit {0})

abbrev pub ScheduledActionImpl : Type 0
ScheduledActionImpl = ScheduledCtx → Result Error (Unit {0})

abbrev pub AggregatedActionImpl : Type 0
AggregatedActionImpl = AggregatedCtx → Result Error (Unit {0})

abbrev pub PredicateImpl : Type 0
PredicateImpl = BaseCtx → Result Error Bool

abbrev pub TransformFn : Type 0
TransformFn = BaseCtx → Result Error Value

unfoldable pub action :
    String
    → ImplState ActionImpl
    → ImplState ActionImpl
    → Option Args
    → Result Error RegisteredAction
action name now later registration_args =
    made "action" name now.args_schema now.impl later.impl (λ schema impl. record {
      name = name;
      args_schema = some schema;
      pinned_args = get_or registration_args [];
      fn = impl;
    })

unfoldable pub scheduled_action :
    String
    → ImplState ScheduledActionImpl
    → ImplState ScheduledActionImpl
    → Option Args
    → Result Error RegisteredScheduledAction
scheduled_action name now later registration_args =
    made "scheduledAction" name now.args_schema now.impl later.impl (λ schema impl. record {
      name = name;
      args_schema = some schema;
      pinned_args = get_or registration_args [];
      fn = impl;
    })

unfoldable pub predicate :
    String
    → ImplState PredicateImpl
    → ImplState PredicateImpl
    → Option Args
    → Result Error RegisteredPredicate
predicate name now later registration_args =
    made "predicate" name now.args_schema now.impl later.impl (λ schema impl. record {
      name = name;
      args_schema = some schema;
      pinned_args = get_or registration_args [];
      fn = impl;
    })

pub record AggregatedState : Type 0 where
  pub event_name : Option String
  pub args_schema : Option Schema
  pub transform_fn : Option TransformFn
  pub impl : Option AggregatedActionImpl

pub data AggregatedCall : Type 0 where
  on : String → AggregatedCall
  with_args : Schema → AggregatedCall
  transform : TransformFn → AggregatedCall
  with_fn : AggregatedActionImpl → AggregatedCall

unfoldable pub unset_aggregated : AggregatedState
unset_aggregated = record {
  event_name = none;
  args_schema = none;
  transform_fn = none;
  impl = none;
}

unfoldable pub call_aggregated : AggregatedCall → AggregatedState → AggregatedState
call_aggregated (on event_name) s = record s { event_name = some event_name }
call_aggregated (with_args schema) s = record s { args_schema = some schema }
call_aggregated (transform transform_fn) s = record s { transform_fn = some transform_fn }
call_aggregated (with_fn impl) s = record s { impl = some impl }

abbrev pub with_event :
    String
    → String
    → AggregatedState
    → AggregatedState
    → Option Args
    → Result Error RegisteredAggregatedAction
with_event name event_name now later registration_args = elim now.args_schema [
  | none ↦ missing "aggregatedAction" name "args schema"
  | some schema ↦ elim now.transform_fn [
    | none ↦ missing "aggregatedAction" name "transform"
    | some transform_fn ↦ elim now.impl [
      | none ↦ missing "aggregatedAction" name "implementation"
      | some impl ↦ ok (record {
        name = name;
        event_name = event_name;
        args_schema = some schema;
        pinned_args = get_or registration_args [];
        transform = get_or later.transform_fn transform_fn;
        fn = get_or later.impl impl;
      })
    ]
  ]
]

unfoldable pub aggregated_action :
    String
    → AggregatedState
    → AggregatedState
    → Option Args
    → Result Error RegisteredAggregatedAction
aggregated_action name now later registration_args =
    if is_unset now.event_name
    then missing "aggregatedAction" name "event name"
    else with_event name (get_or now.event_name "") now later registration_args
