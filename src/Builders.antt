-- ===== src/Builders.antt =====
-- What the builders of engine/src/engine/builders share: a state that the calls of a builder
-- write, and a factory that reads it. A builder returns itself, so its calls are a list.
pub mod Rule
pub mod Impl
pub mod Integration
mod Tests
use test_assestment.Common.{
  String, Bool, true, ◌==◌, ◌≡◌, refl, Option, none, some, List, [], ◌∷◌, Result, throw,
}
use test_assestment.Entities.{Error, error}
use test_assestment.Issues.{says}

module _ {ℓ} {A : Type ℓ} where
  -- A later write replaces an earlier one.
  abbrev pub or_else : Option A → Option A → Option A
  or_else none b = b
  or_else (some a) b = some a

  pub or_else-or_else : (a b c : Option A) → or_else (or_else a b) c ≡ or_else a (or_else b c)
  or_else-or_else none b c = refl
  or_else-or_else (some a) b c = refl

  pub or_else-none : (o : Option A) → or_else o none ≡ o
  or_else-none none = refl
  or_else-none (some a) = refl

  -- The value of the last call that has one.
  unfoldable pub last_of {κ} : {C : Type κ} → (C → Option A) → List C → Option A
  last_of pick [] = none
  last_of pick (c ∷ cs) = or_else (last_of pick cs) (pick c)

module _ {ℓ κ} {C : Type ℓ} {S : Type κ} (call : C → S → S) where
  -- Calls one after another.
  unfoldable pub calls : List C → S → S
  calls [] s = s
  calls (c ∷ cs) s = calls cs (call c s)

-- `throw new Error(…)` for a part that was not set.
abbrev pub missing {ℓ} : {A : Type ℓ} → String → String → String → Result Error A
missing kind name part = throw (error (says (kind ∷ " \"" ∷ name ∷ "\" is missing " ∷ part ∷ [])))

-- `!state.eventName`
abbrev pub is_unset : Option String → Bool
is_unset none = true
is_unset (some event_name) = event_name == ""
