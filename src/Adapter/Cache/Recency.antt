-- ===== src/Adapter/Cache/Recency.antt =====
-- Which entry a lookup finds, which one goes when the cache is full, and when two calls share a
-- promise.
use test_assestment.Common.{
  ℕ, suc, ◌+◌, ◌-◌, ◌≤◌, ◌<◌, ◌≡◌, refl, ap, true, false, Option, none, some, [], ◌∷◌, ◌++◌, String,
  leb, ◌==◌, length, arith, Bool-cases, inl, inr, drop, str_eq_refl, Option-cases, length-append,
}
use test_assestment.JsMap.{Map, get, delete}
use test_assestment.JsMap.Laws.{set_absent}
use test_assestment.Adapter.Cache.{
  CacheEntry, get_cached, evict, set_cached, on_rejected, cached_call,
}
use test_assestment.Adapter.Cache.Bounds.{evict-drop, get-delete_self}

-- A hit before its time is returned and becomes the most recent entry; one whose time has come is
-- dropped; a miss changes nothing.
pub data Lookup (key : String) (now : ℕ) (cache : Map CacheEntry)
    : Option CacheEntry × Map CacheEntry → Type 0 where
  miss : get key cache ≡ none → Lookup key now cache (none, cache)
  stale :
      (e : CacheEntry)
      → get key cache ≡ some e
      → e.expires_at ≤ now
      → Lookup key now cache (none, delete key cache)
  fresh :
      (e : CacheEntry)
      → get key cache ≡ some e
      → now < e.expires_at
      → Lookup key now cache (some e, delete key cache ++ (key, e) ∷ [])

-- A lookup that finds nothing returns nothing and changes nothing; one that finds an entry whose
-- time has come drops it and returns nothing; one that finds any other entry returns it and moves
-- it behind all others.
pub get_cached-Lookup :
    (key : String) (now : ℕ) (cache : Map CacheEntry)
    → Lookup key now cache (get_cached key now cache)
unfolding get_cached
get_cached-Lookup key now cache = elim (Option-cases (get key cache)) [
  | inl e ↦ rw (e, get_cached) (miss e)
  | inr (hit, e) ↦ elim (Bool-cases (leb hit.expires_at now)) [
    | inl b ↦ rw (e, get_cached, b) (stale hit e (ground arith))
    | inr b ↦
        rw (e, get_cached, b, set_absent key hit (delete key cache) (get-delete_self key cache))
          (fresh hit e (ground arith))
  ]
]

-- Where the key is not in the cache, set_cached puts the entry behind all others and then drops
-- the oldest entries, exactly as many as there are above the limit.
pub set_cached_lem :
    (ttl max : ℕ) (key : String) (promise now : ℕ) (cache : Map CacheEntry)
    → get key cache ≡ none
    → set_cached ttl max key promise now cache
      ≡ drop
          (length cache + 1 - max)
          (cache ++ (key, record { promise = promise; expires_at = now + ttl }) ∷ [])
unfolding set_cached
set_cached_lem ttl max key promise now cache e =
    let entry : CacheEntry = record { promise = promise; expires_at = now + ttl } in
    rw (set_absent key entry cache e, evict-drop, length-append cache ((key, entry) ∷ []))

get-append :
    (key : String) (e : CacheEntry) (cache : Map CacheEntry)
    → get key cache ≡ none
    → get key (cache ++ (key, e) ∷ []) ≡ some e
unfolding get
get-append key e [] a = rw str_eq_refl
get-append key e ((j, v) ∷ cache) a = elim (Bool-cases (j == key)) [
  | inl b ↦ ground (arith, b)
  | inr b ↦ rw b (get-append key e cache (rw b at a))
]

get-evict :
    (max : ℕ) (key : String) (e : CacheEntry) (cache : Map CacheEntry)
    → 1 ≤ max
    → get key cache ≡ none
    → get key (evict max (cache ++ (key, e) ∷ [])) ≡ some e
unfolding evict get
get-evict max key e [] h a = let fits : leb 1 max ≡ true = ground arith in rw (fits, str_eq_refl)
get-evict max key e ((j, v) ∷ cache) h a = elim (Bool-cases (j == key)) [
  | inl b ↦ ground (arith, b)
  | inr b ↦ elim (Bool-cases (leb (suc (length (cache ++ (key, e) ∷ []))) max)) [
    | inl c ↦ rw (c, b) (get-append key e cache (rw b at a))
    | inr c ↦ rw c (get-evict max key e cache h (rw b at a))
  ]
]

-- Whatever the lookup leaves on a miss, the key is not in it.
get_cached-absent :
    (key : String) (now : ℕ) (cache : Map CacheEntry) (r : Option CacheEntry × Map CacheEntry)
    → Lookup key now cache r
    → r.0 ≡ none
    → get key r.1 ≡ none
get_cached-absent key now cache r (miss e) h = e
get_cached-absent key now cache r (stale d e t) h = get-delete_self key cache
get_cached-absent key now cache r (fresh d e t) h = cc

cached_call-miss :
    (ttl max : ℕ) (key : String) (p now : ℕ) (cache : Map CacheEntry)
    → (get_cached key now cache).0 ≡ none
    → cached_call ttl max key p now cache
      ≡ (p, false, set_cached ttl max key p now (get_cached key now cache).1)
unfolding cached_call
cached_call-miss ttl max key p now cache e = rw (e, cached_call)

get_cached-hit :
    (key : String) (now : ℕ) (cache : Map CacheEntry) (e : CacheEntry)
    → get key cache ≡ some e
    → now < e.expires_at
    → get_cached key now cache ≡ (some e, delete key cache ++ (key, e) ∷ [])
unfolding get_cached
get_cached-hit key now cache e h t =
    let live : leb e.expires_at now ≡ false = ground arith in
    rw (h, get_cached, live, set_absent key e (delete key cache) (get-delete_self key cache))

cached_call-hit :
    (ttl max : ℕ) (key : String) (p now : ℕ) (cache : Map CacheEntry) (e : CacheEntry)
    → get key cache ≡ some e
    → now < e.expires_at
    → cached_call ttl max key p now cache ≡ (e.promise, true, delete key cache ++ (key, e) ∷ [])
unfolding cached_call
cached_call-hit ttl max key p now cache e h t =
    let found = get_cached-hit key now cache e h t in
    rw (found, cached_call) (ap (λ r. (e.promise, true, r.1)) found)

-- With a limit of at least one, a call that finds no entry starts a promise of its own, and the
-- next call with the same key, before the entry has run out, shares that promise and starts none.
pub cached_call-cached_call :
    (ttl max : ℕ) (key : String) (p q now later : ℕ) (cache : Map CacheEntry)
    → 1 ≤ max
    → (get_cached key now cache).0 ≡ none
    → later < now + ttl
    → let first = cached_call ttl max key p now cache in
      let second = cached_call ttl max key q later first.2 in
      (first.0 ≡ p) × (first.1 ≡ false) × (second.0 ≡ p) × (second.1 ≡ true)
cached_call-cached_call ttl max key p q now later cache h e t =
    let entry : CacheEntry = record { promise = p; expires_at = now + ttl } in
    let c1 = (get_cached key now cache).1 in
    let absent = get_cached-absent key now cache _ (get_cached-Lookup key now cache) e in
    let kept : get key (set_cached ttl max key p now c1) ≡ some entry =
      unfold set_cached in
      rw (set_absent key entry c1 absent) (get-evict max key entry c1 h absent) in
    rw
      (
        cached_call-miss ttl max key p now cache e,
        cached_call-hit ttl max key q later _ entry kept t,
      )
      (refl, refl, refl, refl)

-- With a limit of at least one, the next call with the key of an entry that a call has just made
-- finds that entry, and no longer finds it once any call with that key, an older one included, has
-- failed in between.
pub on_rejected-cached_call :
    (ttl max : ℕ) (key : String) (p q now later : ℕ) (cache : Map CacheEntry)
    → 1 ≤ max
    → (get_cached key now cache).0 ≡ none
    → later < now + ttl
    → let newer = (cached_call ttl max key p now cache).2 in
      ((cached_call ttl max key q later newer).1 ≡ true)
      × ((cached_call ttl max key q later (on_rejected key newer)).1 ≡ false)
on_rejected-cached_call ttl max key p q now later cache h e t =
    let newer = (cached_call ttl max key p now cache).2 in
    let gone : (get_cached key later (on_rejected key newer)).0 ≡ none =
      unfold on_rejected get_cached in rw (get-delete_self key newer, get_cached) in
    (
      (cached_call-cached_call ttl max key p q now later cache h e t).3,
      ap (λ r. r.1) (cached_call-miss ttl max key q later _ gone),
    )
