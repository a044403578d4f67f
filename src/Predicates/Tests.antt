-- ===== src/Predicates/Tests.antt =====
-- A predicate that counts as true when it throws, asked twice in one event.
use test_assestment.Common.{true, false, none, [], ◌∷◌, ◌≡◌, refl, throw}
use test_assestment.JsMap.{get, set}
use test_assestment.Entities.{boolean, null, BaseCtx, UseRef, plain, error, RegisteredPredicate}
use test_assestment.Arguments.{resolve_args, overlay}
use test_assestment.Predicates.{resolve_use, use_memo, judge, fail}

abbrev ctx : BaseCtx
ctx = record { event = null; args = []; delivery_id = "d"; now = 0; scheduled = none }

abbrev broken : RegisteredPredicate
broken = record {
  name = "broken";
  args_schema = none;
  pinned_args = [];
  fn = λ c. throw (error "down");
}

abbrev ask : UseRef
ask = record { name = "broken"; args = ("failOpen", plain (boolean true)) ∷ [] }

fails_open_once :
    let run = resolve_use (λ m. "{}") (("broken", broken) ∷ []) ctx ask in
    run (run (record { memo = []; events = [] })).1 ≡ (
      true,
      record {
        memo = ("broken@{}", true) ∷ [];
        events =
            record { predicate_name = "broken"; result = true; cached = false }
            ∷ record { predicate_name = "broken"; result = true; cached = true }
            ∷ [];
      },
    )
unfolding resolve_use use_memo judge fail resolve_args overlay get set
fails_open_once = refl
