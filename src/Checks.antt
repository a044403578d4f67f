-- ===== src/Checks.antt =====
-- The two passes of buildRegistry in engine/src/engine/registration.ts over what is registered: the
-- names that a rule refers to, and the pinned arguments.
use test_assestment.Common.{
  ℕ, suc, String, Bool, true, false, ◌||◌, Option, none, some, List, [], ◌∷◌, ◌++◌, map, ◌==◌, ltb,
  get_or, if◌then◌else◌, Result, ok, throw,
}
use test_assestment.JsMap.{Map, get, has}
use test_assestment.Entities.{
  Args, ZodIssue, Schema, UseRef, WhenNode, inline, use_of, all_of, any_of, not_of, Nodes, no_nodes,
  node, RegisteredPredicate, AnyRegisteredAction, action, aggregated_action, scheduled_action,
  ActionAttachment, RuleStrategy, plain, aggregate, schedule, RegisteredRule,
  RegisteredAggregatedAction, RegisteredScheduledAction,
}
use test_assestment.When.{when_tree_max_depth}
use test_assestment.Issues.{
  RegistrationIssue, issue, says, unknown_predicate, unknown_action, on_mismatch, kind_mismatch,
  missing_aggregated_action, missing_scheduled_action, when_depth_exceeded, invalid_args,
  EntityKind, predicate_kind, action_kind, aggregated_action_kind, scheduled_action_kind, rule_kind,
}

-- `checkUse`
module _ (predicates : Map RegisteredPredicate) (rule : String) where
  abbrev pub too_deep : RegistrationIssue
  too_deep =
      issue when_depth_exceeded rule_kind rule
        (says ("rule \"" ∷ rule ∷ "\" .when(...) tree exceeds max depth 30" ∷ [])) none

  abbrev pub check_ref : UseRef → List RegistrationIssue
  check_ref r =
      if has r.name predicates
      then []
      else issue unknown_predicate rule_kind rule
          (says ("rule \"" ∷ rule ∷ "\" uses unknown predicate \"" ∷ r.name ∷ "\"" ∷ []))
          (some (record { kind = predicate_kind; name = r.name }))
        ∷ []

  unfoldable mutual
    pub check_use : WhenNode → ℕ → List RegistrationIssue
    check_use (inline f) depth = if ltb when_tree_max_depth depth then too_deep ∷ [] else []
    check_use (use_of r) depth =
        if ltb when_tree_max_depth depth then too_deep ∷ [] else check_ref r
    check_use (all_of cs) depth =
        let below = check_uses cs (suc depth) in
        if ltb when_tree_max_depth depth then too_deep ∷ [] else below
    check_use (any_of cs) depth =
        let below = check_uses cs (suc depth) in
        if ltb when_tree_max_depth depth then too_deep ∷ [] else below
    check_use (not_of c) depth =
        let below = check_use c (suc depth) in
        if ltb when_tree_max_depth depth then too_deep ∷ [] else below

    pub check_uses : Nodes → ℕ → List RegistrationIssue
    check_uses no_nodes depth = []
    check_uses (node c cs) depth = check_use c depth ++ check_uses cs depth

abbrev pub is_aggregate : RuleStrategy → Bool
is_aggregate plain = false
is_aggregate (aggregate s) = true
is_aggregate (schedule s) = false

abbrev pub is_schedule : RuleStrategy → Bool
is_schedule plain = false
is_schedule (aggregate s) = false
is_schedule (schedule s) = true

abbrev pub check_aggregated : RegisteredRule → RegisteredAggregatedAction → List RegistrationIssue
check_aggregated r agg =
    (if is_aggregate r.strategy
      then []
      else issue kind_mismatch rule_kind r.name
          (says (
            "aggregatedAction \"" ∷ agg.name ∷ "\" attached to non-aggregating rule \"" ∷ r.name
            ∷ "\"" ∷ []))
          (some (record { kind = aggregated_action_kind; name = agg.name }))
        ∷ [])
    ++ (if agg.event_name == r.event_name
        then []
        else issue on_mismatch rule_kind r.name
            (says (
              "aggregatedAction \"" ∷ agg.name ∷ "\" .on(" ∷ agg.event_name
              ∷ ") does not match rule \"" ∷ r.name ∷ "\" .on(" ∷ r.event_name ∷ ")" ∷ []))
            (some (record { kind = aggregated_action_kind; name = agg.name }))
          ∷ [])

abbrev pub check_scheduled : RegisteredRule → RegisteredScheduledAction → List RegistrationIssue
check_scheduled r sched =
    if is_schedule r.strategy
    then []
    else issue kind_mismatch rule_kind r.name
        (says (
          "scheduledAction \"" ∷ sched.name ∷ "\" attached to non-scheduled rule \"" ∷ r.name ∷ "\""
          ∷ []))
        (some (record { kind = scheduled_action_kind; name = sched.name }))
      ∷ []

abbrev pub check_found :
    RegisteredRule → ActionAttachment → Option AnyRegisteredAction → List RegistrationIssue
check_found r att none =
    issue unknown_action rule_kind r.name
      (says ("rule \"" ∷ r.name ∷ "\" references unknown action \"" ∷ att.name ∷ "\"" ∷ []))
      (some (record { kind = action_kind; name = att.name }))
    ∷ []
check_found r att (some (action a)) = []
check_found r att (some (aggregated_action a)) = check_aggregated r a
check_found r att (some (scheduled_action a)) = check_scheduled r a

abbrev pub is_aggregated : Option AnyRegisteredAction → Bool
is_aggregated none = false
is_aggregated (some (action a)) = false
is_aggregated (some (aggregated_action a)) = true
is_aggregated (some (scheduled_action a)) = false

abbrev pub is_scheduled : Option AnyRegisteredAction → Bool
is_scheduled none = false
is_scheduled (some (action a)) = false
is_scheduled (some (aggregated_action a)) = false
is_scheduled (some (scheduled_action a)) = true

-- The loop over the attachments, with its two flags.
unfoldable pub check_attachments :
    Map AnyRegisteredAction
    → RegisteredRule
    → List ActionAttachment
    → List RegistrationIssue × Bool × Bool
check_attachments known r [] = ([], false, false)
check_attachments known r (att ∷ rest) =
    let found = get att.name known in
    let (issues, has_aggregated, has_scheduled) = check_attachments known r rest in
    (
      check_found r att found ++ issues,
      is_aggregated found || has_aggregated,
      is_scheduled found || has_scheduled,
    )

abbrev pub missing : RegisteredRule → Bool → Bool → List RegistrationIssue
missing r has_aggregated has_scheduled =
    (if is_aggregate r.strategy
      then if has_aggregated
        then []
        else issue missing_aggregated_action rule_kind r.name
            (says ("aggregating rule \"" ∷ r.name ∷ "\" has no aggregatedAction attached" ∷ []))
            none
          ∷ []
      else [])
    ++ (if is_schedule r.strategy
        then if has_scheduled
          then []
          else issue missing_scheduled_action rule_kind r.name
              (says ("scheduled rule \"" ∷ r.name ∷ "\" has no scheduledAction attached" ∷ [])) none
            ∷ []
        else [])

abbrev pub check_when :
    Map RegisteredPredicate → RegisteredRule → Option WhenNode → List RegistrationIssue
check_when predicates r none = []
check_when predicates r (some n) = check_use predicates r.name n 1

-- One round of the first pass.
unfoldable pub check_rule :
    Map RegisteredPredicate → Map AnyRegisteredAction → RegisteredRule → List RegistrationIssue
unfolding check_use check_attachments
check_rule predicates known r =
    let (issues, has_aggregated, has_scheduled) = check_attachments known r r.actions in
    check_when predicates r r.when ++ (issues ++ missing r has_aggregated has_scheduled)

-- `validateArgs`
abbrev pub schema_issues : EntityKind → String → List ZodIssue → List RegistrationIssue
schema_issues kind name zs =
    map
      (λ z. record {
        code = invalid_args;
        entity = record { kind = kind; name = name };
        path = some (get_or z.path []);
        message = get_or z.message "invalid args";
        related = none;
      })
      zs

abbrev pub parse_for : Bool → Schema → Args → Result (List ZodIssue) Args
parse_for partial schema pinned =
    if partial then get_or schema.partial schema.safe_parse pinned else schema.safe_parse pinned

unfoldable pub validate_args :
    Option Schema → Args → EntityKind → String → Bool → List RegistrationIssue
validate_args none pinned kind name partial = []
validate_args (some schema) pinned kind name partial = elim (parse_for partial schema pinned) [
  | ok parsed ↦ []
  | throw zs ↦ schema_issues kind name zs
]
