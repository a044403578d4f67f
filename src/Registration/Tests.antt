-- ===== src/Registration/Tests.antt =====
-- A batch with a rule of each strategy, and the theorems at it.
use test_assestment.Common.{
  String, true, false, none, some, List, map, [], ◌∷◌, ◌≡◌, refl, subst, sym, ◌∙◌, Result, ok,
  throw, All, ◌==◌, arith, Bool-cases, inl, inr, ap,
}
use test_assestment.JsMap.{get, set}
use test_assestment.Duration.{num}
use test_assestment.Entities.{
  null, BaseCtx, UseRef, WhenNode, inline, use_of, all_of, not_of, no_nodes, node,
  RegisteredPredicate, RegisteredAggregatedAction, aggregate, schedule, RegisteredRule,
  RegisterBatch, Registry, aggregated_action, skip,
}
use test_assestment.Arguments.{overlay}
use test_assestment.Predicates.{judge}
use test_assestment.Predicates.Memo.{answer, Asks}
use test_assestment.Issues.{
  add_unique, add_action_lookup, missing_scheduled_action, IssueCode, unknown_predicate,
  RegistrationIssue,
}
use test_assestment.Checks.{check_use, check_attachments, check_rule, validate_args}
use test_assestment.Registration.{
  concat_map, collect, invalid_issues, all_issues, registry_of, build_registry, add_to_dispatch,
}
use test_assestment.Registration.Accepted
use test_assestment.Registration.Accepted.{Registered}
use test_assestment.Registration.Formula
use test_assestment.Registration.Formula.{Means, fresh}

abbrev yes : RegisteredPredicate
yes = record { name = "yes"; args_schema = none; pinned_args = []; fn = λ ctx. ok true }

abbrev tally : RegisteredAggregatedAction
tally = record {
  name = "tally";
  event_name = "push";
  args_schema = none;
  pinned_args = [];
  transform = λ ctx. ok null;
  fn = λ ctx. ok tt;
}

abbrev tree : WhenNode
tree = all_of (
    node (use_of (record { name = "yes"; args = [] }))
      (node (not_of (inline (λ ctx. ok false))) no_nodes))

abbrev counted : RegisteredRule
counted = record {
  name = "counted";
  event_name = "push";
  args_schema = none;
  pinned_args = [];
  when = some tree;
  strategy = aggregate (record { window = num 1_000; count = 2; key = λ ctx. ok "k"; at = none });
  actions = record { name = "tally"; args = [] } ∷ [];
}

abbrev later : RegisteredRule
later = record {
  name = "later";
  event_name = "push";
  args_schema = none;
  pinned_args = [];
  when = some (use_of (record { name = "no"; args = [] }));
  strategy = schedule (record {
    delay = num 5;
    deadline = none;
    key = λ ctx. ok "k";
    transform = λ ctx. ok null;
    check = λ ctx. ok skip;
  });
  actions = [];
}

abbrev batch_of : List RegisteredRule → RegisterBatch
batch_of rules = record {
  predicates = yes ∷ [];
  actions = [];
  aggregated_actions = tally ∷ [];
  scheduled_actions = [];
  integrations = [];
  rules = rules;
}

abbrev accepted : Registry
accepted = record {
  predicates = ("yes", yes) ∷ [];
  actions = [];
  aggregated_actions = ("tally", tally) ∷ [];
  scheduled_actions = [];
  integrations = [];
  rules = ("counted", counted) ∷ [];
  action_by_name = ("tally", aggregated_action tally) ∷ [];
  dispatch = ("push", counted ∷ []) ∷ [];
}

accepts : build_registry (batch_of (counted ∷ [])) ≡ ok accepted
unfolding build_registry collect all_issues invalid_issues registry_of add_to_dispatch concat_map
    add_unique add_action_lookup check_rule check_use check_attachments validate_args get set
accepts = refl

codes : Result (List RegistrationIssue) Registry → List IssueCode
codes (ok reg) = []
codes (throw issues) = map (λ i. i.code) issues

rejects :
    codes (build_registry (batch_of (later ∷ [])))
    ≡ unknown_predicate ∷ missing_scheduled_action ∷ []
unfolding codes build_registry collect all_issues invalid_issues registry_of add_to_dispatch
    concat_map add_unique add_action_lookup check_rule check_use check_attachments validate_args get
    set
rejects = refl

build_registry-Registered_example : Registered (batch_of (counted ∷ [])) accepted
build_registry-Registered_example =
    Accepted.build_registry-Registered (batch_of (counted ∷ [])) accepted accepts

abbrev push : BaseCtx
push = record { event = null; args = []; delivery_id = "d"; now = 7; scheduled = none }

found-yes :
    (name : String) (pred : RegisteredPredicate)
    → get name accepted.predicates ≡ some pred
    → yes ≡ pred
unfolding get
found-yes name pred e = elim (Bool-cases ("yes" == name)) [
  | inl b ↦
      let same : some yes ≡ some pred = rw b at e in
      ap (λ o. elim o [ none ↦ yes | some p ↦ p ]) same
  | inr b ↦ let same : none ≡ some pred = rw b at e in ground arith
]

yes_answers :
    (key : String) (r : UseRef)
    → Asks (λ as'. "{}") accepted.predicates push r key
    → answer accepted.predicates push r ≡ true
unfolding answer judge
yes_answers key r a =
    rw (a.found, answer, a.resolved)
      (subst (λ p. judge p r push (overlay p.pinned_args a.use_args) ≡ true)
        (found-yes r.name a.pred a.found) refl)

build_registry-Means_example : All (Means (λ as'. "{}") accepted.predicates push) (counted ∷ [])
build_registry-Means_example =
    Formula.build_registry-Means (batch_of (counted ∷ [])) accepted (λ as'. "{}") push accepts
      (λ key r r' a a'. yes_answers key r a ∙ sym (yes_answers key r' a'))
