-- ===== src/Adapter/Cache.antt =====
-- The cache of engine/src/engine/adapter.ts. An entry holds the promise of a call; the promise is
-- named by a number. An insertion-ordered map keeps the entries, oldest use first.
pub mod Bounds
pub mod Recency
mod Tests
use test_assestment.Common.{
  ℕ, zero, suc, ◌+◌, ◌-◌, Bool, true, false, Option, none, some, List, [], ◌∷◌, String, leb,
  if◌then◌else◌, length,
}
use test_assestment.JsMap.{Map, get, set, delete}

pub record CacheEntry : Type 0 where
  pub promise : ℕ
  pub expires_at : ℕ

-- A hit whose time has come is dropped, any other moves to the end of the map.
abbrev pub use_hit : String → ℕ → CacheEntry → Map CacheEntry → Option CacheEntry × Map CacheEntry
use_hit key now hit cache =
    if leb hit.expires_at now
    then (none, delete key cache)
    else (some hit, set key hit (delete key cache))

unfoldable pub get_cached : String → ℕ → Map CacheEntry → Option CacheEntry × Map CacheEntry
get_cached key now cache = elim (get key cache) [
  | none ↦ (none, cache)
  | some hit ↦ use_hit key now hit cache
]

-- `while (cache.size > cacheMax) cache.delete(cache.keys().next().value)`: no key stands twice in
-- a map, so the deletion of the oldest key leaves the tail.
unfoldable pub evict : ℕ → Map CacheEntry → Map CacheEntry
evict max [] = []
evict max (e ∷ cache) = if leb (length (e ∷ cache)) max then e ∷ cache else evict max cache

unfoldable pub set_cached : ℕ → ℕ → String → ℕ → ℕ → Map CacheEntry → Map CacheEntry
unfolding evict
set_cached ttl max key promise now cache =
    evict max (set key (record { promise = promise; expires_at = now + ttl }) cache)

-- `promise.catch(() => cache.delete(key))`
unfoldable pub on_rejected : String → Map CacheEntry → Map CacheEntry
on_rejected key cache = delete key cache

-- The lines of a wrapped method that take the promise of a call from the cache, or start a call
-- and keep its promise.
unfoldable pub cached_call : ℕ → ℕ → String → ℕ → ℕ → Map CacheEntry → ℕ × Bool × Map CacheEntry
unfolding get_cached set_cached
cached_call ttl max key fresh now cache =
    let (found, cache') = get_cached key now cache in
    elim found [
      | none ↦ (fresh, false, set_cached ttl max key fresh now cache')
      | some hit ↦ (hit.promise, true, cache')
    ]
