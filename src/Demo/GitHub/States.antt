-- ===== src/Demo/GitHub/States.antt =====
-- fetchGitHubIssueState of demo/src/rules.ts, against what the service answers.
use test_assestment.Common.{
  ◌≡◌, refl, ap, ◌∙◌, ◌⊎◌, inl, inr, Bool, true, false, String, ◌==◌, eq_iff, Bool-cases, Result,
  ok, throw, if◌then◌else◌,
}
use test_assestment.Entities.{
  Value, Fields, undefined, null, text, number, boolean, object, array, Error,
}
use test_assestment.Demo.Server.{get_field}
use test_assestment.Demo.GitHub.{
  Response, IssueState, opened, closed, unknown, state_of_text, state_of_body, state_of_response,
}

-- A response with a body whose field `state` is this text.
abbrev pub Says : String → Result Error Response → Type 0
Says state response =
    (r : Response) × (fields : Fields) × (response ≡ ok r)
    × (r.is_ok ≡ true)
    × (r.json ≡ ok (object fields))
    × (get_field "state" fields ≡ text state)

abbrev pub Reports : Result Error Response → IssueState → Type 0
Reports response opened = Says "open" response
Reports response closed = Says "closed" response
Reports response unknown = Unit

state_of_text-eq :
    (s : String)
    → (state_of_text s ≡ opened) × (s ≡ "open")
      ⊎ (state_of_text s ≡ closed) × (s ≡ "closed")
      ⊎ (state_of_text s ≡ unknown)
unfolding state_of_text
state_of_text-eq s = elim (Bool-cases (s == "open")) [
  | inl b ↦ rw b (inl (refl, (eq_iff s "open").0 b))
  | inr b ↦ elim (Bool-cases (s == "closed")) [
    | inl c ↦ rw (b, c) (inr (inl (refl, (eq_iff s "closed").0 c)))
    | inr c ↦ rw (b, c) (inr (inr refl))
  ]
]

state_of_text-Reports :
    (r : Response) (fields : Fields) (s : String)
    → r.is_ok ≡ true
    → r.json ≡ ok (object fields)
    → get_field "state" fields ≡ text s
    → Reports (ok r) (state_of_text s)
state_of_text-Reports r fields s h e f = elim (state_of_text-eq s) [
  | inl (g, x) ↦ rw g (r, fields, refl, h, e, f ∙ ap text x)
  | inr (inl (g, x)) ↦ rw g (r, fields, refl, h, e, f ∙ ap text x)
  | inr (inr g) ↦ rw g tt
]

field-Reports :
    (r : Response) (fields : Fields) (v : Value)
    → r.is_ok ≡ true
    → r.json ≡ ok (object fields)
    → get_field "state" fields ≡ v
    → Reports (ok r) (elim v [ text s ↦ state_of_text s | w ↦ unknown ])
field-Reports r fields (text s) h e f = state_of_text-Reports r fields s h e f
field-Reports r _ undefined h e f = tt
field-Reports r _ null h e f = tt
field-Reports r _ (number n) h e f = tt
field-Reports r _ (boolean b) h e f = tt
field-Reports r _ (object fs) h e f = tt
field-Reports r _ (array vs) h e f = tt

state_of_body-Reports :
    (r : Response) (v : Value) → r.is_ok ≡ true → r.json ≡ ok v → Reports (ok r) (state_of_body v)
unfolding state_of_body
state_of_body-Reports r (object fields) h e =
    field-Reports r fields (get_field "state" fields) h e refl
state_of_body-Reports r undefined h e = tt
state_of_body-Reports r null h e = tt
state_of_body-Reports r (text s) h e = tt
state_of_body-Reports r (number n) h e = tt
state_of_body-Reports r (boolean b) h e = tt
state_of_body-Reports r (array vs) h e = tt

json-Reports :
    (r : Response) (j : Result Error Value)
    → r.is_ok ≡ true
    → r.json ≡ j
    → Reports (ok r) (elim j [ throw e ↦ unknown | ok v ↦ state_of_body v ])
json-Reports r (throw x) h e = tt
json-Reports r (ok v) h e = state_of_body-Reports r v h e

ok-Reports :
    (r : Response) (b : Bool)
    → r.is_ok ≡ b
    → Reports
        (ok r)
        (if b then (elim r.json [ throw e ↦ unknown | ok v ↦ state_of_body v ]) else unknown)
ok-Reports r true h = json-Reports r r.json h refl
ok-Reports r false h = tt

pub state_of_response-Reports :
    (response : Result Error Response) → Reports response (state_of_response response)
unfolding state_of_response
state_of_response-Reports (throw e) = tt
state_of_response-Reports (ok r) = ok-Reports r r.is_ok refl

pub Says-opened :
    (response : Result Error Response) → Says "open" response → state_of_response response ≡ opened
unfolding state_of_response state_of_body state_of_text
Says-opened response (r, _, e, h, j, f) = rw (e, state_of_response, h, j, state_of_body, f) refl

pub Says-closed :
    (response : Result Error Response)
    → Says "closed" response
    → state_of_response response ≡ closed
unfolding state_of_response state_of_body state_of_text
Says-closed response (r, _, e, h, j, f) = rw (e, state_of_response, h, j, state_of_body, f) refl
