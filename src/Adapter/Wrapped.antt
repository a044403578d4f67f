-- ===== src/Adapter/Wrapped.antt =====
-- The wrapped methods of engine/src/engine/adapter.ts with their cache and their events. A call
-- waits for a promise, its own or one of the cache; promises settle one after another, in any
-- order. A promise is named by a number.
pub mod Accounts
pub mod Keys
mod Tests
use test_assestment.Common.{
  ℕ, zero, suc, ◌+◌, ◌-◌, Bool, true, false, not, ◌&&◌, Option, none, some, get_or, List, [], ◌∷◌,
  ◌++◌, String, filter, map, nat_eq, ltb, if◌then◌else◌, length, codes, codes_eq,
}
use test_assestment.JsMap.{Map}
use test_assestment.Adapter.Breaker.{BreakerState}
use test_assestment.Adapter.Cache.{CacheEntry, cached_call, on_rejected}
use test_assestment.Canonical.{JsValue, reference, Entries, object, Heap, canonical_json}

-- `{ ...(input ?? {}) }` without `signal`
unfoldable pub sans_signal : Entries → Entries
unfolding codes_eq
sans_signal es = filter (λ e. not (codes_eq e.0 (codes "signal"))) es

-- `methodName + '@'`
abbrev pub with_method : List ℕ → Option (List ℕ) → Option (List ℕ)
with_method method none = none
with_method method (some t) = some (method ++ (codes "@" ++ t))

-- The copy of the input is a new object at the end of the heap.
unfoldable pub get_cache_key : (List ℕ → List ℕ) → Heap → List ℕ → Entries → Option (List ℕ)
unfolding canonical_json sans_signal
get_cache_key quote heap method input =
    with_method method
      (canonical_json quote (heap ++ object (sans_signal input) ∷ []) (reference (length heap)))

pub data Input : Type 0 where
  is_object : Input
  -- Null, or no object.
  is_other : Input

-- What `attachIntegrationCallContext` keeps of a delivery, and `callCtx?.deliveryId ?? 'unknown'`.
unfoldable pub delivery_of : Input → Option String → String
delivery_of is_object attached = get_or attached "unknown"
delivery_of is_other attached = "unknown"

pub record ExternalCallEvent : Type 0 where
  pub delivery_id : String
  pub method_name : String
  pub is_ok : Bool
  pub elapsed_ms : ℕ
  pub cache_hit : Bool
  pub breaker_state : BreakerState

-- A call that waits.
pub record Waiting : Type 0 where
  pub delivery_id : String
  pub method_name : String
  pub started_at : ℕ
  pub cache_hit : Bool
  pub promise : ℕ

-- A promise that a call has started, with the key that it has in the cache.
pub record Started : Type 0 where
  pub key : String
  pub outcome : Option Bool

pub record Wrapped : Type 0 where
  pub cache : Map CacheEntry
  -- By their number, the last one first.
  pub started : List Started
  pub waiting : List Waiting
  pub events : List ExternalCallEvent

unfoldable pub new : Wrapped
new = record { cache = []; started = []; waiting = []; events = [] }

-- The outcome of a promise, if it has settled.
unfoldable pub outcome_of : ℕ → List Started → Option Bool
outcome_of p [] = none
outcome_of p (x ∷ xs) = if nat_eq p (length xs) then x.outcome else outcome_of p xs

abbrev pub is_none : Option Bool → Bool
is_none none = true
is_none (some b) = false

-- Started, and not settled.
unfoldable pub is_pending : ℕ → List Started → Bool
unfolding outcome_of
is_pending p xs = ltb p (length xs) && is_none (outcome_of p xs)

unfoldable pub key_of : ℕ → List Started → String
key_of p [] = ""
key_of p (x ∷ xs) = if nat_eq p (length xs) then x.key else key_of p xs

unfoldable pub settle : ℕ → Bool → List Started → List Started
settle p good [] = []
settle p good (x ∷ xs) =
    if nat_eq p (length xs) then record x { outcome = some good } ∷ xs else x ∷ settle p good xs

-- `opts.emit({…})`
unfoldable pub event_of : Bool → BreakerState → ℕ → Waiting → ExternalCallEvent
event_of good breaker_state now w = record {
  delivery_id = w.delivery_id;
  method_name = w.method_name;
  is_ok = good;
  elapsed_ms = now - w.started_at;
  cache_hit = w.cache_hit;
  breaker_state = breaker_state;
}

pub data WrappedStep : Type 0 where
  calls : String → String → String → ℕ → BreakerState → WrappedStep
  settles : ℕ → Bool → ℕ → BreakerState → WrappedStep

-- The time to live and the limit, where there is a cache.
module _ (config : Option (ℕ × ℕ)) where
  -- The promise, whether the cache had it, and the cache.
  unfoldable pub promise_for : String → ℕ → ℕ → Map CacheEntry → ℕ × Bool × Map CacheEntry
  unfolding cached_call
  promise_for key fresh now cache = elim config [
    | none ↦ (fresh, false, cache)
    | some (ttl, max) ↦ cached_call ttl max key fresh now cache
  ]

  -- A call of a promise that has settled goes on at once.
  abbrev pub join_promise : Waiting → Option Bool → BreakerState → ℕ → Wrapped → Wrapped
  join_promise w none breaker_state now s = record s { waiting = s.waiting ++ w ∷ [] }
  join_promise w (some good) breaker_state now s = record s {
    events = s.events ++ event_of good breaker_state now w ∷ [];
  }

  abbrev pub start_unless : Bool → String → List Started → List Started
  start_unless true key started = started
  start_unless false key started = record { key = key; outcome = none } ∷ started

  abbrev pub go_on :
      String → String → String → ℕ → BreakerState → Wrapped → ℕ × Bool × Map CacheEntry → Wrapped
  go_on delivery_id method_name key now breaker_state s (p, hit, cache) =
      let started = start_unless hit key s.started in
      let w : Waiting = record {
        delivery_id = delivery_id;
        method_name = method_name;
        started_at = now;
        cache_hit = hit;
        promise = p;
      } in
      join_promise w (outcome_of p started) breaker_state now
        (record s { cache = cache; started = started })

  unfoldable pub call : String → String → String → ℕ → BreakerState → Wrapped → Wrapped
  unfolding promise_for outcome_of event_of
  call delivery_id method_name key now breaker_state s =
      go_on delivery_id method_name key now breaker_state s
        (promise_for key (length s.started) now s.cache)

  abbrev pub is_on : ℕ → Waiting → Bool
  is_on p w = nat_eq w.promise p

  -- `promise.catch(() => cache.delete(key))`, where there is a cache
  abbrev pub forget : Bool → String → Map CacheEntry → Map CacheEntry
  forget true key cache = cache
  forget false key cache = on_rejected key cache

  -- A promise settles once; every call that waits for it emits its event.
  unfoldable pub settle_promise : ℕ → Bool → ℕ → BreakerState → Wrapped → Wrapped
  unfolding settle is_pending key_of event_of on_rejected
  settle_promise p good now breaker_state s =
      if is_pending p s.started
      then record {
        cache = forget good (key_of p s.started) s.cache;
        started = settle p good s.started;
        waiting = filter (λ w. not (is_on p w)) s.waiting;
        events = s.events ++ map (event_of good breaker_state now) (filter (is_on p) s.waiting);
      }
      else s

  unfoldable pub step : WrappedStep → Wrapped → Wrapped
  unfolding call settle_promise
  step (calls delivery_id method_name key now breaker_state) s =
      call delivery_id method_name key now breaker_state s
  step (settles p good now breaker_state) s = settle_promise p good now breaker_state s

  unfoldable pub run : List WrappedStep → Wrapped → Wrapped
  unfolding step
  run [] s = s
  run (c ∷ cs) s = run cs (step c s)
