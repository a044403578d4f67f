-- ===== src/Builders/Impl/Made.antt =====
-- What the builders of actions and predicates make, read off the calls that were made on them
-- before their factory was called and after it.
use test_assestment.Common.{
  String, ◌≡◌, refl, ◌∙◌, ◌⊎◌, inl, inr, ◌≢◌, ◌==◌, Bool, true, false, Option, none, some, get_or,
  List, [], ◌∷◌, Result, ok, if◌then◌else◌,
}
use test_assestment.Entities.{Args, Schema, RegisteredAggregatedAction, Error}
use test_assestment.Builders.{
  calls, last_of, or_else, or_else-or_else, or_else-none, missing, is_unset,
}
use test_assestment.Builders.Impl.{
  AggregatedActionImpl, TransformFn, AggregatedState, AggregatedCall, on, with_args, transform,
  with_fn, unset_aggregated, call_aggregated, aggregated_action, with_event,
}

abbrev pub event_of : AggregatedCall → Option String
event_of (on event_name) = some event_name
event_of c = none

abbrev pub schema_of : AggregatedCall → Option Schema
schema_of (with_args schema) = some schema
schema_of c = none

abbrev pub transform_of : AggregatedCall → Option TransformFn
transform_of (transform f) = some f
transform_of c = none

abbrev pub impl_of : AggregatedCall → Option AggregatedActionImpl
impl_of (with_fn impl) = some impl
impl_of c = none

-- What is said later, over what was said before.
abbrev merge : AggregatedState → AggregatedState → AggregatedState
merge t s = record {
  event_name = or_else t.event_name s.event_name;
  args_schema = or_else t.args_schema s.args_schema;
  transform_fn = or_else t.transform_fn s.transform_fn;
  impl = or_else t.impl s.impl;
}

abbrev pub said : List AggregatedCall → AggregatedState
said cs = record {
  event_name = last_of event_of cs;
  args_schema = last_of schema_of cs;
  transform_fn = last_of transform_of cs;
  impl = last_of impl_of cs;
}

abbrev after_calls : List AggregatedCall → AggregatedState → AggregatedState
after_calls cs s = merge (said cs) s

after_calls-cons :
    (c : AggregatedCall) (cs : List AggregatedCall) (s : AggregatedState)
    → after_calls cs (call_aggregated c s) ≡ after_calls (c ∷ cs) s
unfolding call_aggregated last_of
after_calls-cons (on x) cs s = simp or_else-or_else
after_calls-cons (with_args x) cs s = simp or_else-or_else
after_calls-cons (transform x) cs s = simp or_else-or_else
after_calls-cons (with_fn x) cs s = simp or_else-or_else

calls-after_calls :
    (cs : List AggregatedCall) (s : AggregatedState) → calls call_aggregated cs s ≡ after_calls cs s
unfolding calls last_of
calls-after_calls [] s = refl
calls-after_calls (c ∷ cs) s = calls-after_calls cs (call_aggregated c s) ∙ after_calls-cons c cs s

calls-said : (cs : List AggregatedCall) → calls call_aggregated cs unset_aggregated ≡ said cs
unfolding unset_aggregated
calls-said cs = calls-after_calls cs unset_aggregated ∙ simp or_else-none

-- `s` is what was said before the call of the factory, `t` what was said after it.
abbrev pub Holds :
    String → AggregatedState → AggregatedState → Option Args → RegisteredAggregatedAction → Type 0
Holds name s t registration_args r =
    (name ≡ r.name)
    × (s.event_name ≡ some r.event_name)
    × (s.args_schema ≡ r.args_schema)
    × (r.pinned_args ≡ get_or registration_args [])
    × (or_else t.transform_fn s.transform_fn ≡ some r.transform)
    × (or_else t.impl s.impl ≡ some r.fn)

abbrev pub IsComplete : AggregatedState → Type 0
IsComplete s =
    (is_unset s.event_name ≡ false)
    × (s.args_schema ≢ none)
    × (s.transform_fn ≢ none)
    × (s.impl ≢ none)

abbrev pub Lacks : AggregatedState → String → Type 0
Lacks s part =
    (part ≡ "event name") × (is_unset s.event_name ≡ true)
    ⊎ (part ≡ "args schema") × (s.args_schema ≡ none)
    ⊎ (part ≡ "transform") × (s.transform_fn ≡ none)
    ⊎ (part ≡ "implementation") × (s.impl ≡ none)

abbrev pub Outcome :
    String
    → AggregatedState
    → AggregatedState
    → Option Args
    → Result Error RegisteredAggregatedAction
    → Type 0
Outcome name s t registration_args result =
    ((r : RegisteredAggregatedAction) × (result ≡ ok r)
      × Holds name s t registration_args r
      × IsComplete s)
    ⊎ ((part : String) × (result ≡ missing "aggregatedAction" name part) × Lacks s part)

late {ℓ} :
    {A : Type ℓ} (o : Option A) (a : A) → or_else o (some a) ≡ some (get_or (or_else o (some a)) a)
late none a = refl
late (some b) a = refl

with_event-Outcome :
    (name e : String) (registration_args : Option Args) (t : AggregatedState)
    (schema : Option Schema) (f : Option TransformFn) (impl : Option AggregatedActionImpl)
    → (e == "") ≡ false
    → let s : AggregatedState = record {
      event_name = some e;
      args_schema = schema;
      transform_fn = f;
      impl = impl;
    } in
      Outcome name s t registration_args (with_event name e s (merge t s) registration_args)
with_event-Outcome name e ra t none f impl b = inr ("args schema", refl, inr (inl (refl, refl)))
with_event-Outcome name e ra t (some schema) none impl b =
    inr ("transform", refl, inr (inr (inl (refl, refl))))
with_event-Outcome name e ra t (some schema) (some f) none b =
    inr ("implementation", refl, inr (inr (inr (refl, refl))))
with_event-Outcome name e ra t (some schema) (some f) (some impl) b = inl (
  _,
  refl,
  (refl, refl, refl, refl, late t.transform_fn f, late t.impl impl),
  (b, λ x. cc x, λ x. cc x, λ x. cc x),
)

named-Outcome :
    (name e : String) (registration_args : Option Args) (t : AggregatedState)
    (schema : Option Schema) (f : Option TransformFn) (impl : Option AggregatedActionImpl)
    (b : Bool)
    → (e == "") ≡ b
    → let s : AggregatedState = record {
      event_name = some e;
      args_schema = schema;
      transform_fn = f;
      impl = impl;
    } in
      Outcome name s t registration_args (
        if b
        then missing "aggregatedAction" name "event name"
        else with_event name e s (merge t s) registration_args)
named-Outcome name e ra t schema f impl true b = inr ("event name", refl, inl (refl, b))
named-Outcome name e ra t schema f impl false b = with_event-Outcome name e ra t schema f impl b

aggregated_action-Outcome :
    (name : String) (registration_args : Option Args) (t : AggregatedState)
    (event_name : Option String) (schema : Option Schema) (f : Option TransformFn)
    (impl : Option AggregatedActionImpl)
    → let s : AggregatedState = record {
      event_name = event_name;
      args_schema = schema;
      transform_fn = f;
      impl = impl;
    } in
      Outcome name s t registration_args (aggregated_action name s (merge t s) registration_args)
unfolding aggregated_action
aggregated_action-Outcome name ra t none schema f impl = inr ("event name", refl, inl (refl, refl))
aggregated_action-Outcome name ra t (some e) schema f impl =
    named-Outcome name e ra t schema f impl (e == "") refl

-- The factory of an aggregated action, called after some calls on its builder, throws the error of
-- a part that lacks or makes an action of the last event and schema that were set; what it makes
-- runs the last transform and the last implementation that were set before it runs, those set
-- after the factory was called included.
pub aggregated_action-calls :
    (name : String) (cs cs' : List AggregatedCall) (registration_args : Option Args)
    → let now = calls call_aggregated cs unset_aggregated in
      Outcome name
        (said cs)
        (said cs')
        registration_args
        (aggregated_action name now (calls call_aggregated cs' now) registration_args)
aggregated_action-calls name cs cs' registration_args =
    rw (calls-said cs, calls-after_calls cs' (said cs))
      (aggregated_action-Outcome name registration_args (said cs') (last_of event_of cs)
        (last_of schema_of cs) (last_of transform_of cs) (last_of impl_of cs))
