-- ===== src/Arguments/Precedence.antt =====
-- Which argument wins.
use test_assestment.Common.{
  String, Option, none, some, [], ◌∷◌, ◌≡◌, refl, ◌∙◌, ok, Result-cases, if◌then◌else◌, ◌==◌,
  Bool-cases, inl, inr, eq_iff, arith,
}
use test_assestment.JsMap.{Map, get, set}
use test_assestment.JsMap.Laws.{get-set, UniqueKeys}
use test_assestment.Entities.{Value, Args, BaseCtx, UseArg}
use test_assestment.Arguments.{resolve_arg, resolve_args, is_undefined, overlay}

-- A pinned value counts unless it is `undefined`.
abbrev pub prefer : Option Value → Option Value → Option Value
prefer none o = o
prefer (some v) o = if is_undefined v then o else some v

-- When no pinned key stands twice, the merged arguments have at each key the pinned value, unless
-- there is none or it is undefined, and otherwise that of the use site.
pub get-overlay :
    (k : String) (pinned use_args : Args)
    → UniqueKeys pinned
    → get k (overlay pinned use_args) ≡ prefer (get k pinned) (get k use_args)
unfolding overlay get
get-overlay k [] use_args u = refl
get-overlay k ((j, v) ∷ pinned) use_args (p, u) =
    let ih = get-overlay k pinned (if is_undefined v then use_args else set j v use_args) u in
    elim (Bool-cases (j == k)) [
      | inl b ↦
          let gone : get k pinned ≡ none = rw (← (eq_iff j k).0 b) p in
          rw b (
            ih
            ∙ rw gone (elim (Bool-cases (is_undefined v)) [
              | inl d ↦ rw d
              | inr d ↦ rw (d, get-set j k v use_args, b)
            ]))
      | inr b ↦ rw b (
          ih ∙ elim (Bool-cases (is_undefined v)) [
            | inl d ↦ rw d
            | inr d ↦ rw (d, get-set j k v use_args, b)
          ])
    ]

-- What a use-site argument is for this event.
abbrev pub ValueAt : BaseCtx → Option UseArg → Option Value → Type 0
ValueAt ctx none o = o ≡ none
ValueAt ctx (some a) o = (v : Value) × (resolve_arg ctx a ≡ ok v) × (o ≡ some v)

-- When the use-site arguments resolve, each key has the value given for it, or the one that its
-- callback returned for the context, and no other key is there.
pub get-resolve_args :
    (ctx : BaseCtx) (uses : Map UseArg) (vs : Args) (k : String)
    → resolve_args ctx uses ≡ ok vs
    → ValueAt ctx (get k uses) (get k vs)
unfolding resolve_args get
get-resolve_args ctx [] vs k e = ground arith
get-resolve_args ctx ((j, a) ∷ uses) vs k e = elim (Result-cases (resolve_arg ctx a)) [
  | inr (x, d) ↦ ground (arith, d)
  | inl (v, d) ↦ elim (Result-cases (resolve_args ctx uses)) [
    | inr (x, c) ↦ ground (arith, d, c)
    | inl (ws, c) ↦
        let head : vs ≡ (j, v) ∷ ws = ground (arith, d, c) in
        elim (Bool-cases (j == k)) [
          | inl b ↦ rw (b, head, b) (v, d, refl)
          | inr b ↦ rw (b, head, b) (get-resolve_args ctx uses ws k c)
        ]
  ]
]
