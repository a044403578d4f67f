-- ===== src/Issues.antt =====
-- The issues of a registration, engine/src/public/register.ts, and the duplicate names among them,
-- engine/src/engine/registration.ts.
use test_assestment.Common.{String, Option, none, List, [], ◌∷◌, str_append, if◌then◌else◌}
use test_assestment.JsMap.{Map, has, set}
use test_assestment.Entities.{AnyRegisteredAction, action, aggregated_action, scheduled_action}

pub data IssueCode : Type 0 where
  unknown_predicate unknown_action on_mismatch kind_mismatch missing_aggregated_action : IssueCode
  missing_scheduled_action aggregate_and_schedule when_depth_exceeded duplicate_name invalid_args :
      IssueCode

pub data EntityKind : Type 0 where
  predicate_kind action_kind aggregated_action_kind scheduled_action_kind rule_kind
        integration_kind :
      EntityKind

pub record Entity : Type 0 where
  pub kind : EntityKind
  pub name : String

pub record RegistrationIssue : Type 0 where
  pub code : IssueCode
  pub entity : Entity
  pub path : Option (List String)
  pub message : String
  pub related : Option Entity

abbrev pub kind_text : EntityKind → String
kind_text predicate_kind = "predicate"
kind_text action_kind = "action"
kind_text aggregated_action_kind = "aggregatedAction"
kind_text scheduled_action_kind = "scheduledAction"
kind_text rule_kind = "rule"
kind_text integration_kind = "integration"

-- The parts of a template, joined.
abbrev pub says : List String → String
says [] = ""
says (t ∷ ts) = str_append t (says ts)

abbrev pub issue : IssueCode → EntityKind → String → String → Option Entity → RegistrationIssue
issue code kind name message related = record {
  code = code;
  entity = record { kind = kind; name = name };
  path = none;
  message = message;
  related = related;
}

-- `addUnique` on a list: the first entity of a name stays, each later one is an issue.
module _ {T : Type 0} (name_of : T → String) (kind : EntityKind) where
  unfoldable pub add_unique : Map T → List T → Map T × List RegistrationIssue
  add_unique known [] = (known, [])
  add_unique known (x ∷ xs) =
      let name = name_of x in
      let found = has name known in
      let (known', issues) = add_unique (if found then known else set name x known) xs in
      (
        known',
        if found
            then issue duplicate_name kind name
                (says ("duplicate " ∷ kind_text kind ∷ " name: " ∷ name ∷ [])) none
              ∷ issues
            else issues,
      )

abbrev pub action_name : AnyRegisteredAction → String
action_name (action a) = a.name
action_name (aggregated_action a) = a.name
action_name (scheduled_action a) = a.name

abbrev pub action_kind_of : AnyRegisteredAction → EntityKind
action_kind_of (action a) = action_kind
action_kind_of (aggregated_action a) = aggregated_action_kind
action_kind_of (scheduled_action a) = scheduled_action_kind

-- `addActionLookup` on a list
unfoldable pub add_action_lookup :
    Map AnyRegisteredAction
    → List AnyRegisteredAction
    → Map AnyRegisteredAction × List RegistrationIssue
add_action_lookup known [] = (known, [])
add_action_lookup known (a ∷ rest) =
    let found = has (action_name a) known in
    let (known', issues) =
      add_action_lookup (if found then known else set (action_name a) a known) rest in
    (
      known',
      if found
          then issue duplicate_name (action_kind_of a) (action_name a)
              (says ("duplicate action name across action kinds: " ∷ action_name a ∷ [])) none
            ∷ issues
          else issues,
    )
