-- ===== src/Registration/Dispatch.antt =====
-- The dispatch index and the maps by name hold what was registered.
use mathlib.Core.List.{append-nil, append_assoc}
use test_assestment.Common.{
  String, List, [], ◌∷◌, ◌++◌, map, get_or, ◌≡◌, sym, ◌∙◌, ap, filter, ◌==◌, Bool-cases, inl, inr,
  arith, eq_iff, Option-cases,
}
use test_assestment.JsMap.{Map, get, has}
use test_assestment.JsMap.Laws.{get-set, set_absent, UniqueKeys, set-UniqueKeys}
use test_assestment.Entities.{RegisteredRule}
use test_assestment.Issues.{EntityKind, add_unique}
use test_assestment.Registration.{add_to_dispatch}

abbrev pub rules_on : String → Map (List RegisteredRule) → List RegisteredRule
rules_on event index = get_or (get event index) []

pub add_to_dispatch_lem :
    (event : String) (rules : List RegisteredRule) (index : Map (List RegisteredRule))
    → rules_on event (add_to_dispatch index rules)
      ≡ rules_on event index ++ filter (λ r. r.event_name == event) rules
unfolding add_to_dispatch
add_to_dispatch_lem event [] index = sym (append-nil (rules_on event index))
add_to_dispatch_lem event (r ∷ rules) index =
    add_to_dispatch_lem event rules _ ∙ elim (Bool-cases (r.event_name == event)) [
      | inl b ↦
          let same = ap (λ e. rules_on e index) ((eq_iff r.event_name event).0 b) in
          let later = filter (λ s. s.event_name == event) rules in
          rw (get-set, b)
            (ap (λ old. (old ++ r ∷ []) ++ later) same
              ∙ append_assoc (rules_on event index) (r ∷ []) later)
      | inr b ↦ rw (get-set, b)
    ]

module _ {T : Type 0} (name_of : T → String) (kind : EntityKind) where
  abbrev named : T → String × T
  named x = (name_of x, x)

  -- When nothing is a duplicate, the map holds the entities in order, each under its name.
  pub add_unique_lem :
      (xs : List T) (known : Map T)
      → (add_unique name_of kind known xs).1 ≡ []
      → (add_unique name_of kind known xs).0 ≡ known ++ map named xs
  unfolding add_unique
  add_unique_lem [] known h = sym (append-nil known)
  add_unique_lem (x ∷ xs) known h = elim (Option-cases (get (name_of x) known)) [
    | inr (y, e) ↦ ground (arith, e)
    | inl e ↦
        rw (e, set_absent (name_of x) x known e)
          (add_unique_lem xs (known ++ named x ∷ []) (rw (e, set_absent (name_of x) x known e) at h)
            ∙ append_assoc known (named x ∷ []) (map named xs))
  ]

  pub add_unique-UniqueKeys :
      (xs : List T) (known : Map T)
      → UniqueKeys known
      → UniqueKeys (add_unique name_of kind known xs).0
  unfolding add_unique
  add_unique-UniqueKeys [] known u = u
  add_unique-UniqueKeys (x ∷ xs) known u = elim (Bool-cases (has (name_of x) known)) [
    | inl b ↦ rw b (add_unique-UniqueKeys xs known u)
    | inr b ↦ rw b (add_unique-UniqueKeys xs _ (set-UniqueKeys (name_of x) x known u))
  ]
