-- ===== src/Registration/Accepted.antt =====
-- What holds of a batch that is accepted.
use test_assestment.Common.{
  String, Bool, true, Option, none, some, List, [], ◌∷◌, map, ◌≡◌, refl, sym, ◌∙◌, ap, subst,
  filter, ◌==◌, arith, ok, All, All-mono,
}
use test_assestment.JsMap.{Map, get, values}
use test_assestment.JsMap.Laws.{UniqueKeys}
use test_assestment.Entities.{
  WhenNode, RegisteredPredicate, AnyRegisteredAction, RegisteredRule, RegisterBatch, Registry,
}
use test_assestment.When.Meaning.{Fits}
use test_assestment.Issues.{
  RegistrationIssue, add_unique, predicate_kind, action_kind, aggregated_action_kind,
  scheduled_action_kind, integration_kind, rule_kind,
}
use test_assestment.Checks.{
  is_aggregate, is_schedule, is_aggregated, is_scheduled, check_attachments, missing, check_when,
  check_rule,
}
use test_assestment.Registration.{
  concat_map, registry_of, Collected, collect, all_issues, finish, build_registry,
}
use test_assestment.Registration.Nothing.{nil_of_append, concat_map-nil}
use test_assestment.Registration.Dispatch.{
  rules_on, add_to_dispatch_lem, add_unique_lem, add_unique-UniqueKeys,
}
use test_assestment.Registration.Trees.{AllKnown, NoEmpty, check_use-AllKnown, check_use-Fits}
use test_assestment.Registration.Attachments.{
  Suits, Attached, check_attachments-Suits, aggregated_lem, scheduled_lem,
}

abbrev pub WhenKnown : Map RegisteredPredicate → Option WhenNode → Type 0
WhenKnown ps none = Unit
WhenKnown ps (some n) = AllKnown ps n

abbrev pub WhenFits : Option WhenNode → Type 0
WhenFits none = Unit
WhenFits (some n) = NoEmpty n → Fits n 1

-- What the evaluation of a rule relies on.
pub record Sound (ps : Map RegisteredPredicate) (known : Map AnyRegisteredAction)
    (r : RegisteredRule) : Type 0 where
  pub uses_known : WhenKnown ps r.when
  pub within_depth : WhenFits r.when
  pub actions_suit : All (λ att. Suits r (get att.name known)) r.actions
  pub has_aggregated : is_aggregate r.strategy ≡ true → Attached known is_aggregated r.actions
  pub has_scheduled : is_schedule r.strategy ≡ true → Attached known is_scheduled r.actions

check_when-Known :
    (ps : Map RegisteredPredicate) (r : RegisteredRule) (when : Option WhenNode)
    → check_when ps r when ≡ []
    → WhenKnown ps when
check_when-Known ps r none h = tt
check_when-Known ps r (some n) h = check_use-AllKnown ps r.name n 1 h

check_when-Fits :
    (ps : Map RegisteredPredicate) (r : RegisteredRule) (when : Option WhenNode)
    → check_when ps r when ≡ []
    → WhenFits when
check_when-Fits ps r none h = tt
check_when-Fits ps r (some n) h = check_use-Fits ps r.name n 1 h

missing_aggregated :
    (r : RegisteredRule) (a s : Bool)
    → missing r a s ≡ []
    → is_aggregate r.strategy ≡ true
    → a ≡ true
missing_aggregated r a s h e = ground arith

missing_scheduled :
    (r : RegisteredRule) (a s : Bool)
    → missing r a s ≡ []
    → is_schedule r.strategy ≡ true
    → s ≡ true
missing_scheduled r a s h e = ground arith

check_rule-Sound :
    (ps : Map RegisteredPredicate) (known : Map AnyRegisteredAction) (r : RegisteredRule)
    → check_rule ps known r ≡ []
    → Sound ps known r
unfolding check_rule
check_rule-Sound ps known r h =
    let checked = check_attachments known r r.actions in
    let (tree, others) = nil_of_append (check_when ps r r.when) _ h in
    let (suits, none_missing) = nil_of_append checked.0 _ others in
    record {
      uses_known = check_when-Known ps r r.when tree;
      within_depth = check_when-Fits ps r r.when tree;
      actions_suit = check_attachments-Suits known r r.actions suits;
      has_aggregated = λ e.
          aggregated_lem known r r.actions
            (missing_aggregated r checked.1 checked.2 none_missing e);
      has_scheduled = λ e.
          scheduled_lem known r r.actions (missing_scheduled r checked.1 checked.2 none_missing e);
    }

made_from :
    (c : Collected) (issues : List RegistrationIssue) (reg : Registry)
    → finish c issues ≡ ok reg
    → (issues ≡ []) × (reg ≡ registry_of c)
made_from c [] reg h = (refl, ground arith)
made_from c (i ∷ issues) reg h = ground arith

values-named :
    {T : Type 0} (name_of : T → String) (xs : List T) → values (map (λ x. (name_of x, x)) xs) ≡ xs
values-named name_of [] = refl
values-named name_of (x ∷ xs) = ap (◌∷◌ x) (values-named name_of xs)

-- What a registry is for its batch.
pub record Registered (batch : RegisterBatch) (reg : Registry) : Type 0 where
  pub predicates_lem : reg.predicates ≡ map (λ p. (p.name, p)) batch.predicates
  pub rules_lem : reg.rules ≡ map (λ r. (r.name, r)) batch.rules
  pub unique : UniqueKeys reg.predicates × UniqueKeys reg.rules
  pub sound : All (Sound reg.predicates reg.action_by_name) batch.rules
  pub dispatch_lem :
      (event : String)
      → rules_on event reg.dispatch ≡ filter (λ r. r.event_name == event) batch.rules

collect-rules :
    (batch : RegisterBatch)
    → (collect batch).issues ≡ []
    → ((collect batch).predicates ≡ map (λ p. (p.name, p)) batch.predicates)
      × ((collect batch).rules ≡ map (λ r. (r.name, r)) batch.rules)
unfolding collect
collect-rules batch h =
    let i2 = (add_unique (λ a. a.name) action_kind [] batch.actions).1 in
    let i3 = (add_unique (λ a. a.name) aggregated_action_kind [] batch.aggregated_actions).1 in
    let i4 = (add_unique (λ a. a.name) scheduled_action_kind [] batch.scheduled_actions).1 in
    let i5 = (add_unique (λ i. i.name) integration_kind [] batch.integrations).1 in
    let i6 = (add_unique (λ r. r.name) rule_kind [] batch.rules).1 in
    let (h1, t1) =
      nil_of_append (add_unique (λ p. p.name) predicate_kind [] batch.predicates).1 _ h in
    let (h2, t2) = nil_of_append i2 _ t1 in
    let (h3, t3) = nil_of_append i3 _ t2 in
    let (h4, t4) = nil_of_append i4 _ t3 in
    let (h5, t5) = nil_of_append i5 _ t4 in
    let (h6, t6) = nil_of_append i6 _ t5 in
    (
      add_unique_lem (λ p. p.name) predicate_kind batch.predicates [] h1,
      add_unique_lem (λ r. r.name) rule_kind batch.rules [] h6,
    )

collect-UniqueKeys :
    (batch : RegisterBatch)
    → UniqueKeys (collect batch).predicates × UniqueKeys (collect batch).rules
unfolding collect
collect-UniqueKeys batch = (
  add_unique-UniqueKeys (λ p. p.name) predicate_kind batch.predicates [] tt,
  add_unique-UniqueKeys (λ r. r.name) rule_kind batch.rules [] tt,
)

All-Sound :
    (ps : Map RegisteredPredicate) (known : Map AnyRegisteredAction) (rules : List RegisteredRule)
    → All (λ r. check_rule ps known r ≡ []) rules
    → All (Sound ps known) rules
All-Sound ps known rules = All-mono (check_rule-Sound ps known) rules

-- When a batch is accepted, the registry holds its predicates and its rules in order, each under
-- its own name and no name twice; every rule uses registered predicates only, has a when tree that
-- the evaluation reaches in full unless an all or any in it is empty, names registered actions
-- that suit its strategy and event, and has an aggregated or a scheduled action where its strategy
-- asks for one; and the dispatch index lists for each event exactly the rules on it, in order.
pub build_registry-Registered :
    (batch : RegisterBatch) (reg : Registry) → build_registry batch ≡ ok reg → Registered batch reg
unfolding build_registry all_issues registry_of get
build_registry-Registered batch reg h =
    let c = collect batch in
    let (no_issues, made) = made_from c (all_issues c) reg h in
    let (names, passes) = nil_of_append c.issues _ no_issues in
    let (refs, pinned) =
      nil_of_append (concat_map (check_rule c.predicates c.action_by_name) (values c.rules)) _
        passes in
    let (ps, rs) = collect-rules batch names in
    let listed : values c.rules ≡ batch.rules =
      ap values rs ∙ values-named (λ r. r.name) batch.rules in
    let sound : All (Sound c.predicates c.action_by_name) (values c.rules) =
      All-Sound c.predicates c.action_by_name (values c.rules)
        (concat_map-nil _ (values c.rules) refs) in
    subst (Registered batch) (sym made) (record {
      predicates_lem = ps;
      rules_lem = rs;
      unique = collect-UniqueKeys batch;
      sound = subst (All (Sound c.predicates c.action_by_name)) listed sound;
      dispatch_lem = λ event.
          add_to_dispatch_lem event (values c.rules) []
          ∙ ap (filter (λ r. r.event_name == event)) listed;
    })
