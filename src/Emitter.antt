-- ===== src/Emitter.antt =====
-- EngineEmitter of engine/src/engine/utility/emitter.ts. A callback is named by a number, and is a
-- function of the payload and of the state that it works on; it leaves the subscriptions alone.
pub mod Delivery
mod Tests
use test_assestment.Common.{
  ℕ, Bool, true, false, not, ◌||◌, Option, none, some, get_or, List, [], ◌∷◌, ◌++◌, String, nat_eq,
  filter, if◌then◌else◌, Result,
}
use test_assestment.JsMap.{Map, get, set}

abbrev pub Subscriptions : Type 0
Subscriptions = Map (List ℕ)

unfoldable pub contains : ℕ → List ℕ → Bool
contains c [] = false
contains c (d ∷ cs) = nat_eq c d || contains c cs

-- `set.add(cb)`
unfoldable pub add : ℕ → List ℕ → List ℕ
unfolding contains
add c cs = if contains c cs then cs else cs ++ c ∷ []

-- `set.delete(cb)`
unfoldable pub remove : ℕ → List ℕ → List ℕ
remove c cs = filter (λ d. not (nat_eq c d)) cs

unfoldable pub subscribers : String → Subscriptions → List ℕ
unfolding get
subscribers name subs = get_or (get name subs) []

unfoldable pub on : String → ℕ → Subscriptions → Subscriptions
unfolding subscribers add set
on name c subs = set name (add c (subscribers name subs)) subs

unfoldable pub off : String → ℕ → Subscriptions → Subscriptions
unfolding get remove set
off name c subs = elim (get name subs) [ none ↦ subs | some cs ↦ set name (remove c cs) subs ]

module _ {ℓ κ μ} {P : Type ℓ} {E : Type κ} {S : Type μ}
    (callback : ℕ → P → S → Result E (Unit {0}) × S) where
  -- `try { cb(payload); } catch {}`
  unfoldable pub call_each : List ℕ → P → S → S
  call_each [] payload s = s
  call_each (c ∷ cs) payload s = call_each cs payload (callback c payload s).1

  unfoldable pub emit : String → P → Subscriptions → S → S
  unfolding subscribers call_each
  emit name payload subs s = call_each (subscribers name subs) payload s

pub data Change : Type 0 where
  subscribes : String → ℕ → Change
  unsubscribes : String → ℕ → Change

unfoldable pub change : Change → Subscriptions → Subscriptions
unfolding on off
change (subscribes name c) subs = on name c subs
change (unsubscribes name c) subs = off name c subs

unfoldable pub changes : List Change → Subscriptions → Subscriptions
unfolding change
changes [] subs = subs
changes (c ∷ cs) subs = changes cs (change c subs)
