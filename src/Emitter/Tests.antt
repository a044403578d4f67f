-- ===== src/Emitter/Tests.antt =====
-- Subscriptions at concrete changes, and the theorem at them.
use test_assestment.Common.{
  ℕ, ◌≡◌, refl, String, ok, throw, Result, List, [], ◌∷◌, if◌then◌else◌, nat_eq,
}
use test_assestment.JsMap.{get, set}
use test_assestment.Emitter.{Change, subscribes, unsubscribes, changes, emit}
use test_assestment.Emitter.Delivery.{times, noting, emit-changes}

abbrev some_changes : List Change
some_changes =
    subscribes "rule.matched" 1
    ∷ subscribes "rule.matched" 2
    ∷ subscribes "rule.matched" 1
    ∷ unsubscribes "rule.matched" 3
    ∷ subscribes "rule.skipped" 3
    ∷ []

-- The first callback throws.
abbrev outcome : ℕ → Result String (Unit {0})
outcome c = if nat_eq c 1 then throw "broken" else ok tt

called : emit (noting outcome) "rule.matched" tt (changes some_changes []) [] ≡ 1 ∷ 2 ∷ []
unfolding emit changes get set
called = refl

emit-changes_example :
    times 1 (emit (noting outcome) "rule.matched" tt (changes some_changes []) []) ≡ 1
emit-changes_example = emit-changes outcome some_changes "rule.matched" 1
