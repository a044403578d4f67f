-- ===== src/Registration/Attachments.antt =====
-- The actions of a rule that is accepted.
use test_assestment.Common.{
  Bool, true, Option, none, some, List, [], ◌∷◌, ◌≡◌, ◌⊎◌, Bool-cases, inl, inr, arith, eq_iff, All,
}
use test_assestment.JsMap.{Map, get}
use test_assestment.Entities.{
  AnyRegisteredAction, action, aggregated_action, scheduled_action, ActionAttachment,
  RegisteredRule,
}
use test_assestment.Checks.{
  is_aggregate, is_schedule, check_found, is_aggregated, is_scheduled, check_attachments,
}
use test_assestment.Registration.Nothing.{nil_of_append}

-- An attachment that fits the rule.
abbrev pub Suits : RegisteredRule → Option AnyRegisteredAction → Type 0
Suits r none = ⊥
Suits r (some (action a)) = Unit
Suits r (some (aggregated_action a)) =
    (is_aggregate r.strategy ≡ true) × (a.event_name ≡ r.event_name)
Suits r (some (scheduled_action a)) = is_schedule r.strategy ≡ true

check_found-Suits :
    (r : RegisteredRule) (att : ActionAttachment) (found : Option AnyRegisteredAction)
    → check_found r att found ≡ []
    → Suits r found
check_found-Suits r att none h = cc
check_found-Suits r att (some (action a)) h = tt
check_found-Suits r att (some (aggregated_action a)) h =
    ground (arith, eq_iff a.event_name r.event_name)
check_found-Suits r att (some (scheduled_action a)) h = ground arith

module _ (known : Map AnyRegisteredAction) where
  pub check_attachments-Suits :
      (r : RegisteredRule) (atts : List ActionAttachment)
      → (check_attachments known r atts).0 ≡ []
      → All (λ att. Suits r (get att.name known)) atts
  unfolding check_attachments
  check_attachments-Suits r [] h = tt
  check_attachments-Suits r (att ∷ atts) h =
      let (p, q) = nil_of_append (check_found r att (get att.name known)) _ h in
      (check_found-Suits r att (get att.name known) p, check_attachments-Suits r atts q)

  -- One of the attachments is of the kind.
  abbrev pub Attached : (Option AnyRegisteredAction → Bool) → List ActionAttachment → Type 0
  Attached is [] = ⊥
  Attached is (att ∷ atts) = (is (get att.name known) ≡ true) ⊎ Attached is atts

  pub aggregated_lem :
      (r : RegisteredRule) (atts : List ActionAttachment)
      → (check_attachments known r atts).1 ≡ true
      → Attached is_aggregated atts
  unfolding check_attachments
  aggregated_lem r [] h = ground arith
  aggregated_lem r (att ∷ atts) h = elim (Bool-cases (is_aggregated (get att.name known))) [
    | inl b ↦ inl b
    | inr b ↦ inr (aggregated_lem r atts (rw b at h))
  ]

  pub scheduled_lem :
      (r : RegisteredRule) (atts : List ActionAttachment)
      → (check_attachments known r atts).2 ≡ true
      → Attached is_scheduled atts
  unfolding check_attachments
  scheduled_lem r [] h = ground arith
  scheduled_lem r (att ∷ atts) h = elim (Bool-cases (is_scheduled (get att.name known))) [
    | inl b ↦ inl b
    | inr b ↦ inr (scheduled_lem r atts (rw b at h))
  ]
