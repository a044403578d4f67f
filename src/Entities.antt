-- ===== src/Entities.antt =====
-- What is registered with the engine, and the registry that holds it: engine/src/public and
-- engine/src/internal/registry.ts. The functions that users write are fields; what they throw is a
-- result. A schema of the validation library is the parse that it does.
use test_assestment.Common.{ℕ, String, Bool, Option, List, Result}
use test_assestment.JsMap.{Map}
use test_assestment.Duration.{Duration, DurationError}

mutual
  pub data Fields : Type 0 where
    no_fields : Fields
    field : String → Value → Fields → Fields

  pub data Items : Type 0 where
    no_items : Items
    item : Value → Items → Items

  pub data Value : Type 0 where
    undefined null : Value
    text : String → Value
    number : ℕ → Value
    boolean : Bool → Value
    object : Fields → Value
    array : Items → Value

abbrev pub Args : Type 0
Args = Map Value

pub record ZodIssue : Type 0 where
  pub path : Option (List String)
  pub message : Option String

-- `duration_error` is the error of `parseDuration`; `aggregate_error` is an `AggregateError`.
mutual
  pub data Error : Type 0 where
    error : String → Error
    zod_error : List ZodIssue → Error
    duration_error : DurationError → Error
    aggregate_error : String → Errors → Error
    thrown : Value → Error

  pub data Errors : Type 0 where
    no_errors : Errors
    and_error : Error → Errors → Errors

-- `safeParse`, and that of `partial()` where the schema has one.
pub record Schema : Type 0 where
  pub safe_parse : Args → Result (List ZodIssue) Args
  pub partial : Option (Args → Result (List ZodIssue) Args)

pub record ScheduledView : Type 0 where
  pub payload : Value
  pub scheduled_at : ℕ
  pub ran_at : ℕ
  pub key_id : String

pub record BaseCtx : Type 0 where
  pub event : Value
  pub args : Args
  pub delivery_id : String
  pub now : ℕ
  -- That of `ScheduledPlainActionCtx`, for an action of a scheduled rule.
  pub scheduled : Option ScheduledView

pub record AggregateEntryView : Type 0 where
  pub at : ℕ
  pub delivery_id : String
  pub payload : Value

pub record AggregateView : Type 0 where
  pub entries : List AggregateEntryView
  pub count : ℕ
  pub window_ms : ℕ
  pub key_id : String

pub record AggregatedCtx : Type 0 where
  pub base : BaseCtx
  pub aggregate : AggregateView

pub record ScheduledCtx : Type 0 where
  pub args : Args
  pub delivery_id : String
  pub now : ℕ
  pub scheduled : ScheduledView

pub record CheckCtx : Type 0 where
  pub args : Args
  pub delivery_id : String
  pub now : ℕ
  pub payload : Value
  pub scheduled_at : ℕ

-- A use-site argument: a value, or a function of the context of the rule.
pub data UseArg : Type 0 where
  plain : Value → UseArg
  callback : (BaseCtx → Result Error Value) → UseArg

pub record UseRef : Type 0 where
  pub name : String
  pub args : Map UseArg

mutual
  pub data WhenNode : Type 0 where
    inline : (BaseCtx → Result Error Bool) → WhenNode
    use_of : UseRef → WhenNode
    all_of : Nodes → WhenNode
    any_of : Nodes → WhenNode
    not_of : WhenNode → WhenNode

  pub data Nodes : Type 0 where
    no_nodes : Nodes
    node : WhenNode → Nodes → Nodes

pub record RegisteredPredicate : Type 0 where
  pub name : String
  pub args_schema : Option Schema
  pub pinned_args : Args
  pub fn : BaseCtx → Result Error Bool

pub record RegisteredAction : Type 0 where
  pub name : String
  pub args_schema : Option Schema
  pub pinned_args : Args
  pub fn : BaseCtx → Result Error (Unit {0})

pub record RegisteredAggregatedAction : Type 0 where
  pub name : String
  pub event_name : String
  pub args_schema : Option Schema
  pub pinned_args : Args
  pub transform : BaseCtx → Result Error Value
  pub fn : AggregatedCtx → Result Error (Unit {0})

pub record RegisteredScheduledAction : Type 0 where
  pub name : String
  pub args_schema : Option Schema
  pub pinned_args : Args
  pub fn : ScheduledCtx → Result Error (Unit {0})

pub data AnyRegisteredAction : Type 0 where
  action : RegisteredAction → AnyRegisteredAction
  aggregated_action : RegisteredAggregatedAction → AnyRegisteredAction
  scheduled_action : RegisteredScheduledAction → AnyRegisteredAction

pub record ActionAttachment : Type 0 where
  pub name : String
  pub args : Map UseArg

pub data CheckResult : Type 0 where
  pass skip : CheckResult
  recheck : Duration → CheckResult

pub record AggregateStrategy : Type 0 where
  pub window : Duration
  pub count : ℕ
  pub key : BaseCtx → Result Error String
  pub at : Option (BaseCtx → Result Error ℕ)

pub record ScheduleStrategy : Type 0 where
  pub delay : Duration
  pub deadline : Option Duration
  pub key : BaseCtx → Result Error String
  pub transform : BaseCtx → Result Error Value
  pub check : CheckCtx → Result Error CheckResult

pub data RuleStrategy : Type 0 where
  plain : RuleStrategy
  aggregate : AggregateStrategy → RuleStrategy
  schedule : ScheduleStrategy → RuleStrategy

pub record RegisteredRule : Type 0 where
  pub name : String
  pub event_name : String
  pub args_schema : Option Schema
  pub pinned_args : Args
  pub when : Option WhenNode
  pub strategy : RuleStrategy
  pub actions : List ActionAttachment

-- The part of an integration that registration reads.
pub record RegisteredIntegration : Type 0 where
  pub name : String

pub record RegisterBatch : Type 0 where
  pub predicates : List RegisteredPredicate
  pub actions : List RegisteredAction
  pub aggregated_actions : List RegisteredAggregatedAction
  pub scheduled_actions : List RegisteredScheduledAction
  pub integrations : List RegisteredIntegration
  pub rules : List RegisteredRule

pub record Registry : Type 0 where
  pub predicates : Map RegisteredPredicate
  pub actions : Map RegisteredAction
  pub aggregated_actions : Map RegisteredAggregatedAction
  pub scheduled_actions : Map RegisteredScheduledAction
  pub integrations : Map RegisteredIntegration
  pub rules : Map RegisteredRule
  pub action_by_name : Map AnyRegisteredAction
  pub dispatch : Map (List RegisteredRule)
