-- ===== src/JsMap/Laws.antt =====
-- Reads after writes, uniqueness of the keys, and properties of all values.
use mathlib.Core.Option
use test_assestment.Common.{
  ◌+◌, ◌≤◌, String, ◌≡◌, refl, none, some, [], ◌∷◌, ◌++◌, ◌==◌, subst, get_or, eq_iff,
  if◌then◌else◌, All, arith, length, str_eq_refl, Bool-cases, Option-cases, inl, inr, ap, ◌∙◌,
}
use test_assestment.JsMap.{Map, get, set, delete, map_values}

module _ {ℓ} {V : Type ℓ} where
  pub get-set :
      (k j : String) (v : V) (m : Map V) → get j (set k v m) ≡ (if k == j then some v else get j m)
  unfolding get set
  get-set k j v [] = refl
  get-set k j v ((i, w) ∷ m) = ground (arith, eq_iff k j, eq_iff i k, eq_iff i j, get-set k j v m)

  pub get-delete :
      (k j : String) (m : Map V) → get j (delete k m) ≡ (if k == j then none else get j m)
  unfolding get delete
  get-delete k j [] = ground arith
  get-delete k j ((i, w) ∷ m) = ground (arith, eq_iff k j, eq_iff i k, eq_iff i j, get-delete k j m)

  abbrev pub AllValues {κ} : (V → Type κ) → Map V → Type κ
  AllValues P m = All (λ e. P e.1) m

  pub get-AllValues {κ} :
      (P : V → Type κ) (k : String) (m : Map V) {v : V} → AllValues P m → get k m ≡ some v → P v
  unfolding get
  get-AllValues P k [] h e = cc
  get-AllValues P k ((j, w) ∷ m) {v} (p, h) e = elim (Bool-cases (j == k)) [
    | inl b ↦ let same : w ≡ v = ground arith in subst P same p
    | inr b ↦ get-AllValues P k m h (rw b at e)
  ]

  pub get_or-AllValues {κ} :
      (P : V → Type κ) (k : String) (m : Map V) (d : V)
      → AllValues P m
      → P d
      → P (get_or (get k m) d)
  get_or-AllValues P k m d h p = elim (Option-cases (get k m)) [
    | inl e ↦ rw e p
    | inr (v, e) ↦ rw e (get-AllValues P k m h e)
  ]

  pub set-AllValues {κ} :
      (P : V → Type κ) (k : String) (v : V) (m : Map V)
      → AllValues P m
      → P v
      → AllValues P (set k v m)
  unfolding set
  set-AllValues P k v [] h p = (p, tt)
  set-AllValues P k v ((j, w) ∷ m) (q, h) p = elim (Bool-cases (j == k)) [
    | inl b ↦ rw b (p, h)
    | inr b ↦ rw b (q, set-AllValues P k v m h p)
  ]

  pub delete-AllValues {κ} :
      (P : V → Type κ) (k : String) (m : Map V) → AllValues P m → AllValues P (delete k m)
  unfolding delete
  delete-AllValues P k [] h = tt
  delete-AllValues P k ((j, w) ∷ m) (q, h) = elim (Bool-cases (j == k)) [
    | inl b ↦ rw b (delete-AllValues P k m h)
    | inr b ↦ rw b (q, delete-AllValues P k m h)
  ]

  -- To write what stands there changes nothing.
  pub set_self : (k : String) (v : V) (m : Map V) → get k m ≡ some v → set k v m ≡ m
  unfolding get set
  set_self k v [] h = cc
  set_self k v ((j, w) ∷ m) h = ground (arith, eq_iff j k, set_self k v m)

  -- The second of two writes at one key is the one that counts.
  pub set-set : (k : String) (v w : V) (m : Map V) → set k w (set k v m) ≡ set k w m
  unfolding set
  set-set k v w [] = rw str_eq_refl
  set-set k v w ((j, u) ∷ m) = ground (arith, eq_iff j k, eq_iff k k, set-set k v w m)

  pub get-set_self : (k : String) (v : V) (m : Map V) → get k (set k v m) ≡ some v
  get-set_self k v m = rw (get-set, str_eq_refl)

module _ {ℓ κ} {V : Type ℓ} {W : Type κ} where
  pub get-map_values :
      (f : V → W) (k : String) (m : Map V) → get k (map_values f m) ≡ Option.map f (get k m)
  unfolding get
  get-map_values f k [] = refl
  get-map_values f k ((j, w) ∷ m) = elim (Bool-cases (j == k)) [
    | inl b ↦ rw b
    | inr b ↦ rw b (get-map_values f k m)
  ]

  pub map_values-AllValues {μ ν} :
      (P : V → Type μ) (Q : W → Type ν) (f : V → W) (h : (v : V) → P v → Q (f v)) (m : Map V)
      → AllValues P m
      → AllValues Q (map_values f m)
  map_values-AllValues P Q f h [] a = tt
  map_values-AllValues P Q f h ((j, w) ∷ m) (p, a) = (h w p, map_values-AllValues P Q f h m a)

module _ {ℓ} {V : Type ℓ} where
  -- No key stands twice.
  abbrev pub UniqueKeys : Map V → Type ℓ
  UniqueKeys [] = Unit
  UniqueKeys ((k, v) ∷ m) = (get k m ≡ none) × UniqueKeys m

  pub set-UniqueKeys : (k : String) (v : V) (m : Map V) → UniqueKeys m → UniqueKeys (set k v m)
  unfolding set get
  set-UniqueKeys k v [] u = (refl, tt)
  set-UniqueKeys k v ((j, w) ∷ m) (p, u) = elim (Bool-cases (j == k)) [
    | inl b ↦ rw (b, ← (eq_iff j k).0 b) (p, u)
    | inr b ↦
        rw b (get-set k j v m ∙ ground (arith, eq_iff k j, eq_iff j k), set-UniqueKeys k v m u)
  ]

  pub delete_absent : (k : String) (m : Map V) → get k m ≡ none → delete k m ≡ m
  unfolding delete get
  delete_absent k [] h = refl
  delete_absent k ((j, w) ∷ m) h = elim (Bool-cases (j == k)) [
    | inl b ↦ ground (arith, b)
    | inr b ↦ rw b (ap (◌∷◌ (j, w)) (delete_absent k m (rw b at h)))
  ]

  pub delete-UniqueKeys : (k : String) (m : Map V) → UniqueKeys m → UniqueKeys (delete k m)
  unfolding delete
  delete-UniqueKeys k [] u = tt
  delete-UniqueKeys k ((j, w) ∷ m) (p, u) = elim (Bool-cases (j == k)) [
    | inl b ↦ rw b (delete-UniqueKeys k m u)
    | inr b ↦ rw b (get-delete k j m ∙ ground (arith, p), delete-UniqueKeys k m u)
  ]

  pub length-delete-le : (k : String) (m : Map V) → length (delete k m) ≤ length m
  unfolding delete
  length-delete-le k [] = omega arith
  length-delete-le k ((j, w) ∷ m) = ground (arith, length-delete-le k m)

  pub length-delete :
      (k : String) (m : Map V) {v : V}
      → UniqueKeys m
      → get k m ≡ some v
      → length (delete k m) + 1 ≡ length m
  unfolding delete get
  length-delete k [] u h = cc
  length-delete k ((j, w) ∷ m) (p, u) h = elim (Bool-cases (j == k)) [
    | inl b ↦
        let gone : get k m ≡ none = rw (← (eq_iff j k).0 b) p in
        rw (b, delete_absent k m gone) (omega arith)
    | inr b ↦ rw b (omega (arith, length-delete k m u (rw b at h)))
  ]

  -- A write to a key that is not there goes to the end.
  pub set_absent : (k : String) (v : V) (m : Map V) → get k m ≡ none → set k v m ≡ m ++ (k, v) ∷ []
  unfolding set get
  set_absent k v [] h = refl
  set_absent k v ((j, w) ∷ m) h = elim (Bool-cases (j == k)) [
    | inl b ↦ ground (arith, b)
    | inr b ↦ rw b (ap (◌∷◌ (j, w)) (set_absent k v m (rw b at h)))
  ]
