-- ===== src/Arguments.antt =====
-- The arguments of a predicate or an action: those of its use, with callbacks resolved, under those
-- pinned at registration. engine/src/engine/actions.ts (mergeActionArgs) and the first part of
-- resolveUse in engine/src/engine/predicates.ts.
pub mod Precedence
mod Tests
use test_assestment.Common.{
  String, Bool, true, false, Option, none, some, List, [], ◌∷◌, Result, ok, throw, if◌then◌else◌,
}
use test_assestment.JsMap.{Map, get, set}
use test_assestment.Entities.{
  Value, undefined, boolean, null, number, text, array, object, Args, ZodIssue, Error, zod_error,
  Schema, BaseCtx, UseArg, plain, callback,
}

abbrev pub resolve_arg : BaseCtx → UseArg → Result Error Value
resolve_arg ctx (plain v) = ok v
resolve_arg ctx (callback f) = f ctx

-- The loop over the keys of the use-site arguments: the first callback that throws ends it.
unfoldable pub resolve_args : BaseCtx → Map UseArg → Result Error Args
resolve_args ctx [] = ok []
resolve_args ctx ((k, a) ∷ uses) =
    let rest = resolve_args ctx uses in
    elim (resolve_arg ctx a) [
      | throw e ↦ throw e
      | ok v ↦ elim rest [ throw e ↦ throw e | ok vs ↦ ok ((k, v) ∷ vs) ]
    ]

abbrev pub is_undefined : Value → Bool
is_undefined undefined = true
is_undefined null = false
is_undefined (boolean b) = false
is_undefined (number n) = false
is_undefined (text t) = false
is_undefined (array vs) = false
is_undefined (object fs) = false

-- The loop over the pinned arguments: each but `undefined` replaces that of the use site.
unfoldable pub overlay : Args → Args → Args
overlay [] merged = merged
overlay ((k, v) ∷ pinned) merged =
    overlay pinned (if is_undefined v then merged else set k v merged)

abbrev pub parse_args : Option Schema → Args → Result Error Args
parse_args none merged = ok merged
parse_args (some schema) merged = elim (schema.safe_parse merged) [
  | ok parsed ↦ ok parsed
  | throw issues ↦ throw (zod_error issues)
]

unfoldable pub merge_action_args : Args → Map UseArg → BaseCtx → Option Schema → Result Error Args
unfolding resolve_args overlay
merge_action_args pinned use_site ctx schema = elim (resolve_args ctx use_site) [
  | throw e ↦ throw e
  | ok use_args ↦ parse_args schema (overlay pinned use_args)
]
