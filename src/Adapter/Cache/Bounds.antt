-- ===== src/Adapter/Cache/Bounds.antt =====
-- The cache never holds more than its limit, and no key twice.
use test_assestment.Common.{
  ℕ, suc, ◌-◌, ◌≤◌, ◌≡◌, ◌∙◌, none, List, [], ◌∷◌, String, leb, length, arith, Bool-cases, inl, inr,
  drop, drop-nil, ap, length-append, str_eq_refl, Option-cases,
}
use test_assestment.JsMap.{Map, get, delete}
use test_assestment.JsMap.Laws.{
  get-delete, UniqueKeys, set-UniqueKeys, delete-UniqueKeys, length-delete-le, length-delete,
  set_absent,
}
use test_assestment.Adapter.Cache.{CacheEntry, get_cached, evict, set_cached, on_rejected}

pub record Inv (max : ℕ) (cache : Map CacheEntry) : Type 0 where
  pub bounded : length cache ≤ max
  pub unique : UniqueKeys cache

pub evict-drop :
    (max : ℕ) (cache : Map CacheEntry) → evict max cache ≡ drop (length cache - max) cache
unfolding evict
evict-drop max [] = rw (drop-nil (0 - max))
evict-drop max (e ∷ cache) = elim (Bool-cases (leb (suc (length cache)) max)) [
  | inl b ↦ let none_over : suc (length cache) - max ≡ 0 = ground arith in rw (b, none_over)
  | inr b ↦
      let one_over : suc (length cache) - max ≡ suc (length cache - max) = ground arith in
      rw (b, one_over) (evict-drop max cache)
]

evict-bounded : (max : ℕ) (cache : Map CacheEntry) → length (evict max cache) ≤ max
unfolding evict
evict-bounded max [] = omega arith
evict-bounded max (e ∷ cache) = ground (arith, evict-bounded max cache)

evict-UniqueKeys :
    (max : ℕ) (cache : Map CacheEntry) → UniqueKeys cache → UniqueKeys (evict max cache)
unfolding evict
evict-UniqueKeys max [] u = tt
evict-UniqueKeys max (e ∷ cache) (p, u) = elim (Bool-cases (leb (suc (length cache)) max)) [
  | inl b ↦ rw b (p, u)
  | inr b ↦ rw b (evict-UniqueKeys max cache u)
]

set_cached-Inv :
    (ttl max : ℕ) (key : String) (promise now : ℕ) (cache : Map CacheEntry)
    → Inv max cache
    → Inv max (set_cached ttl max key promise now cache)
unfolding set_cached
set_cached-Inv ttl max key promise now cache v = record {
  bounded = evict-bounded max _;
  unique = evict-UniqueKeys max _ (set-UniqueKeys key _ cache v.unique);
}

on_rejected-Inv :
    (max : ℕ) (key : String) (cache : Map CacheEntry)
    → Inv max cache
    → Inv max (on_rejected key cache)
unfolding on_rejected
on_rejected-Inv max key cache v = record {
  bounded = omega (arith, length-delete-le key cache, v.bounded);
  unique = delete-UniqueKeys key cache v.unique;
}

pub get-delete_self : (key : String) (cache : Map CacheEntry) → get key (delete key cache) ≡ none
get-delete_self key cache = get-delete key key cache ∙ simp str_eq_refl

get_cached-Inv :
    (max : ℕ) (key : String) (now : ℕ) (cache : Map CacheEntry)
    → Inv max cache
    → Inv max (get_cached key now cache).1
unfolding get_cached
get_cached-Inv max key now cache v = elim (Option-cases (get key cache)) [
  | inl e ↦ rw (e, get_cached) v
  | inr (hit, e) ↦ elim (Bool-cases (leb hit.expires_at now)) [
    | inl b ↦ rw (e, get_cached, b) (unfold on_rejected in on_rejected-Inv max key cache v)
    | inr b ↦
        rw (e, get_cached, b)
          (record {
            bounded = omega (
              arith,
              ap length (set_absent key hit (delete key cache) (get-delete_self key cache)),
              length-append (delete key cache) ((key, hit) ∷ []),
              length-delete key cache v.unique e,
              v.bounded,
            );
            unique = set-UniqueKeys key hit _ (delete-UniqueKeys key cache v.unique);
          })
  ]
]

-- What happens to the cache: a lookup, an entry for a new call, and a call that failed.
pub data Event : Type 0 where
  looks_up : String → ℕ → Event
  stores : String → ℕ → ℕ → Event
  fails : String → Event

unfoldable pub step : ℕ → ℕ → Event → Map CacheEntry → Map CacheEntry
step ttl max (looks_up key now) cache = (get_cached key now cache).1
step ttl max (stores key promise now) cache = set_cached ttl max key promise now cache
step ttl max (fails key) cache = on_rejected key cache

unfoldable pub run : ℕ → ℕ → List Event → Map CacheEntry → Map CacheEntry
run ttl max [] cache = cache
run ttl max (e ∷ es) cache = run ttl max es (step ttl max e cache)

step-Inv :
    (ttl max : ℕ) (e : Event) (cache : Map CacheEntry)
    → Inv max cache
    → Inv max (step ttl max e cache)
unfolding step
step-Inv ttl max (looks_up key now) cache v = get_cached-Inv max key now cache v
step-Inv ttl max (stores key promise now) cache v = set_cached-Inv ttl max key promise now cache v
step-Inv ttl max (fails key) cache v = on_rejected-Inv max key cache v

run_from-Inv :
    (ttl max : ℕ) (es : List Event) (cache : Map CacheEntry)
    → Inv max cache
    → Inv max (run ttl max es cache)
unfolding run
run_from-Inv ttl max [] cache v = v
run_from-Inv ttl max (e ∷ es) cache v = run_from-Inv ttl max es _ (step-Inv ttl max e cache v)

-- Whatever sequence of lookups, new entries and failures an empty cache goes through, it never
-- holds more entries than its limit, and no key twice.
pub run-Inv : (ttl max : ℕ) (es : List Event) → Inv max (run ttl max es [])
run-Inv ttl max es = run_from-Inv ttl max es [] (record { bounded = omega arith; unique = tt })
