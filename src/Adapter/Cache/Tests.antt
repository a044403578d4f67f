-- ===== src/Adapter/Cache/Tests.antt =====
-- A cache of two entries, and the theorems at such states.
use test_assestment.Common.{◌≡◌, refl, arith, true, false, some, List, [], ◌∷◌}
use test_assestment.JsMap.{Map, get, set, delete}
use test_assestment.Adapter.Cache.{CacheEntry, get_cached, on_rejected, cached_call}
use test_assestment.Adapter.Cache.Bounds
use test_assestment.Adapter.Cache.Bounds.{Inv, run, looks_up, stores, fails, Event}
use test_assestment.Adapter.Cache.Recency
use test_assestment.Adapter.Cache.Recency.{Lookup}

abbrev two : Map CacheEntry
two =
    ("a", record { promise = 1; expires_at = 50 })
    ∷ ("b", record { promise = 2; expires_at = 90 })
    ∷ []

abbrev history : List Event
history = stores "a" 1 0 ∷ stores "b" 2 10 ∷ looks_up "a" 20 ∷ stores "c" 3 30 ∷ fails "b" ∷ []

moves_to_end : get_cached "a" 20 two ≡ (
  some (record { promise = 1; expires_at = 50 }),
  ("b", record { promise = 2; expires_at = 90 })
      ∷ ("a", record { promise = 1; expires_at = 50 })
      ∷ [],
)
unfolding get_cached get delete set
moves_to_end = refl

run-Inv_example : Inv 2 (run 60 2 history [])
run-Inv_example = Bounds.run-Inv 60 2 history

on_rejected-cached_call_example :
    let newer = (cached_call 60 2 "a" 3 55 two).2 in
    ((cached_call 60 2 "a" 4 60 newer).1 ≡ true)
    × ((cached_call 60 2 "a" 4 60 (on_rejected "a" newer)).1 ≡ false)
unfolding get_cached get
on_rejected-cached_call_example =
    Recency.on_rejected-cached_call 60 2 "a" 3 4 55 60 two (omega arith) refl (omega arith)
