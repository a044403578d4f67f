-- ===== src/JsMap.antt =====
-- The language's `Map` with text keys, as the sources use it: entries in insertion order, where
-- a write to a present key keeps its place and a write to a new key goes to the end.
pub mod Laws
use test_assestment.Common.{
  ℕ, String, Bool, true, false, Option, none, some, List, [], ◌∷◌, map, ◌==◌, if◌then◌else◌, length,
}

abbrev pub Map {ℓ} : Type ℓ → Type ℓ
Map V = List (String × V)

module _ {ℓ} {V : Type ℓ} where
  unfoldable pub get : String → Map V → Option V
  get k [] = none
  get k ((j, v) ∷ m) = if j == k then some v else get k m

  abbrev pub is_some : Option V → Bool
  is_some none = false
  is_some (some v) = true

  -- `m.has(k)`
  abbrev pub has : String → Map V → Bool
  has k m = is_some (get k m)

  unfoldable pub set : String → V → Map V → Map V
  set k v [] = (k, v) ∷ []
  set k v ((j, w) ∷ m) = if j == k then (k, v) ∷ m else (j, w) ∷ set k v m

  unfoldable pub delete : String → Map V → Map V
  delete k [] = []
  delete k ((j, v) ∷ m) = if j == k then delete k m else (j, v) ∷ delete k m

  -- `m.size`
  abbrev pub size : Map V → ℕ
  size m = length m

  abbrev pub keys : Map V → List String
  keys m = map (λ e. e.0) m

  -- `m.values()`, in insertion order
  abbrev pub values : Map V → List V
  values m = map (λ e. e.1) m

module _ {ℓ κ} {V : Type ℓ} {W : Type κ} where
  abbrev pub map_values : (V → W) → Map V → Map W
  map_values f m = map (λ e. (e.0, f e.1)) m
