-- ===== src/Builders/Rule/Made.antt =====
-- The rule that a builder makes, read off the calls that were made on it.
use mathlib.Core.List.{append_assoc, append-nil}
use test_assestment.Common.{
  String, ◌≡◌, refl, ◌∙◌, ◌⊎◌, ◌≢◌, ◌==◌, inl, inr, true, false, Option, none, some, get_or, List,
  [], ◌∷◌, ◌++◌, Result, ok, Bool-cases,
}
use test_assestment.Entities.{
  Args, Schema, WhenNode, ActionAttachment, RuleStrategy, plain, aggregate, schedule,
  RegisteredRule, Error,
}
use test_assestment.Builders.{
  calls, last_of, or_else, or_else-or_else, or_else-none, missing, is_unset,
}
use test_assestment.Builders.Rule.{
  RuleState, RuleCall, args, on, when_node, aggregate_by, schedule_by, action, rule, call,
  make_rule_terminal,
}

abbrev pub schema_of : RuleCall → Option Schema
schema_of (args schema) = some schema
schema_of c = none

abbrev pub event_of : RuleCall → Option String
event_of (on event_name) = some event_name
event_of c = none

abbrev pub node_of : RuleCall → Option WhenNode
node_of (when_node node) = some node
node_of c = none

abbrev pub strategy_of : RuleCall → Option RuleStrategy
strategy_of (aggregate_by cfg) = some (aggregate cfg)
strategy_of (schedule_by cfg) = some (schedule cfg)
strategy_of c = none

abbrev pub attached : List RuleCall → List ActionAttachment
attached [] = []
attached (action name use_args ∷ cs) = record { name = name; args = use_args } ∷ attached cs
attached (c ∷ cs) = attached cs

get_or-or_else {ℓ} :
    {A : Type ℓ} (o o' : Option A) (a : A) → get_or (or_else o o') a ≡ get_or o (get_or o' a)
get_or-or_else none o' a = refl
get_or-or_else (some b) o' a = refl

abbrev after_calls : List RuleCall → RuleState → RuleState
after_calls cs s = record {
  name = s.name;
  args_schema = or_else (last_of schema_of cs) s.args_schema;
  event_name = or_else (last_of event_of cs) s.event_name;
  when = or_else (last_of node_of cs) s.when;
  strategy = get_or (last_of strategy_of cs) s.strategy;
  actions = s.actions ++ attached cs;
}

after_calls-cons :
    (c : RuleCall) (cs : List RuleCall) (s : RuleState)
    → after_calls cs (call c s) ≡ after_calls (c ∷ cs) s
unfolding call last_of
after_calls-cons (args x) cs s = simp (or_else-or_else, get_or-or_else)
after_calls-cons (on x) cs s = simp (or_else-or_else, get_or-or_else)
after_calls-cons (when_node x) cs s = simp (or_else-or_else, get_or-or_else)
after_calls-cons (aggregate_by x) cs s = simp (or_else-or_else, get_or-or_else)
after_calls-cons (schedule_by x) cs s = simp (or_else-or_else, get_or-or_else)
after_calls-cons (action x a) cs s = simp (or_else-or_else, get_or-or_else, append_assoc)

calls-after_calls : (cs : List RuleCall) (s : RuleState) → calls call cs s ≡ after_calls cs s
unfolding calls last_of
calls-after_calls [] s = simp append-nil
calls-after_calls (c ∷ cs) s = calls-after_calls cs (call c s) ∙ after_calls-cons c cs s

-- What the calls say of a rule: the last setting of each part, and every attachment.
abbrev pub said : String → List RuleCall → RuleState
said name cs = record {
  name = name;
  args_schema = last_of schema_of cs;
  event_name = last_of event_of cs;
  when = last_of node_of cs;
  strategy = get_or (last_of strategy_of cs) plain;
  actions = attached cs;
}

calls-said : (name : String) (cs : List RuleCall) → calls call cs (rule name) ≡ said name cs
unfolding rule
calls-said name cs = calls-after_calls cs (rule name) ∙ simp or_else-none

abbrev pub Holds : RuleState → Option Args → RegisteredRule → Type 0
Holds s registration_args r =
    (s.name ≡ r.name)
    × (s.event_name ≡ some r.event_name)
    × (s.args_schema ≡ r.args_schema)
    × (r.pinned_args ≡ get_or registration_args [])
    × (s.when ≡ r.when)
    × (s.strategy ≡ r.strategy)
    × (s.actions ≡ r.actions)

abbrev pub IsComplete : RuleState → Type 0
IsComplete s = (is_unset s.event_name ≡ false) × (s.when ≢ none) × (s.actions ≢ [])

abbrev pub Lacks : RuleState → String → Type 0
Lacks s part =
    (part ≡ "event name") × (is_unset s.event_name ≡ true)
    ⊎ (part ≡ "when predicate") × (s.when ≡ none)
    ⊎ (part ≡ "actions") × (s.actions ≡ [])

abbrev pub Outcome : RuleState → Option Args → Result Error RegisteredRule → Type 0
Outcome s registration_args result =
    ((r : RegisteredRule) × (result ≡ ok r) × Holds s registration_args r × IsComplete s)
    ⊎ ((part : String) × (result ≡ missing "rule" s.name part) × Lacks s part)

make_rule_terminal-Outcome :
    (name : String) (schema : Option Schema) (strategy : RuleStrategy)
    (registration_args : Option Args) (event_name : Option String) (when : Option WhenNode)
    (actions : List ActionAttachment)
    → let s : RuleState = record {
      name = name;
      args_schema = schema;
      event_name = event_name;
      when = when;
      strategy = strategy;
      actions = actions;
    } in
      Outcome s registration_args (make_rule_terminal s registration_args)
unfolding make_rule_terminal
make_rule_terminal-Outcome name schema strategy ra none when actions =
    inr ("event name", refl, inl (refl, refl))
make_rule_terminal-Outcome name schema strategy ra (some e) none actions =
    elim (Bool-cases (e == "")) [
      | inl b ↦ rw b (inr ("event name", refl, inl (refl, refl)))
      | inr b ↦ rw b (inr ("when predicate", refl, inr (inl (refl, refl))))
    ]
make_rule_terminal-Outcome name schema strategy ra (some e) (some w) [] =
    elim (Bool-cases (e == "")) [
      | inl b ↦ rw b (inr ("event name", refl, inl (refl, refl)))
      | inr b ↦ rw b (inr ("actions", refl, inr (inr (refl, refl))))
    ]
make_rule_terminal-Outcome name schema strategy ra (some e) (some w) (a ∷ as') =
    elim (Bool-cases (e == "")) [
      | inl b ↦ rw b (inr ("event name", refl, inl (refl, refl)))
      | inr b ↦
          rw b (
            inl (_, refl, (refl, refl, refl, refl, refl, refl, refl), (refl, λ e. cc e, λ e. cc e)))
    ]

-- After any calls on the builder of a rule, the factory makes a rule with the last event, schema,
-- tree and strategy that were set and with every attachment in order, exactly when an event that
-- is not the empty text, a tree and an attachment were given; otherwise it throws the error of a
-- part that lacks.
pub make_rule_terminal-calls :
    (name : String) (cs : List RuleCall) (registration_args : Option Args)
    → Outcome
        (said name cs)
        registration_args
        (make_rule_terminal (calls call cs (rule name)) registration_args)
unfolding rule
make_rule_terminal-calls name cs registration_args = rw (calls-said name cs) (
    make_rule_terminal-Outcome name (last_of schema_of cs) (get_or (last_of strategy_of cs) plain)
      registration_args (last_of event_of cs) (last_of node_of cs) (attached cs))
