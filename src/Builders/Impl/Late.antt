-- ===== src/Builders/Impl/Late.antt =====
-- The builders of actions, scheduled actions and predicates, read off their calls.
use test_assestment.Common.{
  String, ◌≡◌, refl, ◌∙◌, ◌⊎◌, inl, inr, Option, none, some, get_or, List, [], ◌∷◌, Result, ok,
}
use test_assestment.Entities.{
  Args, Schema, RegisteredAction, RegisteredScheduledAction, RegisteredPredicate, Error,
}
use test_assestment.Builders.{calls, last_of, or_else, or_else-or_else, or_else-none, missing}
use test_assestment.Builders.Impl.{
  ImplState, ImplCall, args, fn, unset, call, made, ActionImpl, ScheduledActionImpl, PredicateImpl,
  action, scheduled_action, predicate,
}

module _ {ℓ} {I : Type ℓ} where
  abbrev pub schema_of : ImplCall I → Option Schema
  schema_of (args schema) = some schema
  schema_of (fn impl) = none

  abbrev pub impl_of : ImplCall I → Option I
  impl_of (args schema) = none
  impl_of (fn impl) = some impl

  abbrev after_calls : List (ImplCall I) → ImplState I → ImplState I
  after_calls cs s = record {
    args_schema = or_else (last_of schema_of cs) s.args_schema;
    impl = or_else (last_of impl_of cs) s.impl;
  }

  after_calls-cons :
      (c : ImplCall I) (cs : List (ImplCall I)) (s : ImplState I)
      → after_calls cs (call c s) ≡ after_calls (c ∷ cs) s
  unfolding call last_of
  after_calls-cons (args x) cs s = simp or_else-or_else
  after_calls-cons (fn x) cs s = simp or_else-or_else

  calls-after_calls :
      (cs : List (ImplCall I)) (s : ImplState I) → calls call cs s ≡ after_calls cs s
  unfolding calls last_of
  calls-after_calls [] s = refl
  calls-after_calls (c ∷ cs) s = calls-after_calls cs (call c s) ∙ after_calls-cons c cs s

  abbrev pub said : List (ImplCall I) → ImplState I
  said cs = record { args_schema = last_of schema_of cs; impl = last_of impl_of cs }

  calls-said : (cs : List (ImplCall I)) → calls call cs unset ≡ said cs
  unfolding unset
  calls-said cs = calls-after_calls cs unset ∙ simp or_else-none

  -- A schema and an implementation were set before the factory was called, and what is made has
  -- the last of each that was set before its own call.
  abbrev pub Outcome {κ} :
      {A : Type κ}
      → String
      → String
      → ImplState I
      → ImplState I
      → (Schema → I → A)
      → Result Error A
      → Type (ℓ ⊔ κ)
  Outcome kind name s t build result =
      ((schema : Schema) × (impl : I) × (result ≡ ok (build schema impl))
        × (s.args_schema ≡ some schema)
        × (or_else t.impl s.impl ≡ some impl))
      ⊎ (result ≡ missing kind name "args schema") × (s.args_schema ≡ none)
      ⊎ (result ≡ missing kind name "implementation") × (s.impl ≡ none)

  late : (o : Option I) (a : I) → or_else o (some a) ≡ some (get_or (or_else o (some a)) a)
  late none a = refl
  late (some b) a = refl

  made-Outcome {κ} :
      {A : Type κ} (kind name : String) (schema : Option Schema) (impl : Option I) (t : ImplState I)
      (build : Schema → I → A)
      → Outcome kind name
          (record { args_schema = schema; impl = impl })
          t
          build
          (made kind name schema impl (or_else t.impl impl) build)
  made-Outcome kind name none impl t build = inr (inl (refl, refl))
  made-Outcome kind name (some schema) none t build = inr (inr (refl, refl))
  made-Outcome kind name (some schema) (some impl) t build =
      inl (schema, _, refl, refl, late t.impl impl)

  made-calls {κ} :
      {A : Type κ} (kind name : String) (cs cs' : List (ImplCall I)) (build : Schema → I → A)
      → let now = calls call cs unset in
        let later = calls call cs' now in
        Outcome kind name
          (said cs)
          (said cs')
          build
          (made kind name now.args_schema now.impl later.impl build)
  made-calls kind name cs cs' build =
      rw (calls-said cs, calls-after_calls cs' (said cs))
        (made-Outcome kind name (last_of schema_of cs) (last_of impl_of cs) (said cs') build)

module _ (name : String) (registration_args : Option Args) where
  abbrev pub registered_action : Schema → ActionImpl → RegisteredAction
  registered_action schema impl = record {
    name = name;
    args_schema = some schema;
    pinned_args = get_or registration_args [];
    fn = impl;
  }

  abbrev pub registered_scheduled_action : Schema → ScheduledActionImpl → RegisteredScheduledAction
  registered_scheduled_action schema impl = record {
    name = name;
    args_schema = some schema;
    pinned_args = get_or registration_args [];
    fn = impl;
  }

  abbrev pub registered_predicate : Schema → PredicateImpl → RegisteredPredicate
  registered_predicate schema impl = record {
    name = name;
    args_schema = some schema;
    pinned_args = get_or registration_args [];
    fn = impl;
  }

  pub action-calls :
      (acts acts' : List (ImplCall ActionImpl)) (ss ss' : List (ImplCall ScheduledActionImpl))
      (ps ps' : List (ImplCall PredicateImpl))
      → let a = calls call acts unset in
        let s = calls call ss unset in
        let p = calls call ps unset in
        Outcome "action" name
          (said acts)
          (said acts')
          registered_action
          (action name a (calls call acts' a) registration_args)
        × Outcome "scheduledAction" name
            (said ss)
            (said ss')
            registered_scheduled_action
            (scheduled_action name s (calls call ss' s) registration_args)
        × Outcome "predicate" name
            (said ps)
            (said ps')
            registered_predicate
            (predicate name p (calls call ps' p) registration_args)
  unfolding action scheduled_action predicate
  action-calls acts acts' ss ss' ps ps' = (
    made-calls "action" name acts acts' registered_action,
    made-calls "scheduledAction" name ss ss' registered_scheduled_action,
    made-calls "predicate" name ps ps' registered_predicate,
  )
