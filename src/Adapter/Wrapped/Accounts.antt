-- ===== src/Adapter/Wrapped/Accounts.antt =====
-- The calls of wrapped methods, their promises and their events, counted.
use mathlib.Core.List.{append-nil}
use test_assestment.Common.{
  ℕ, suc, ◌+◌, ◌<◌, ◌≡◌, refl, subst, ◌∙◌, ◌⊎◌, inl, inr, Bool, true, false, not, Option, none,
  some, List, [], ◌∷◌, String, filter, map, nat_eq, leb, length, All, All-mono, All-drop,
  All-append, arith, Bool-cases, Option-cases, length-append, filter-append,
}
use test_assestment.JsMap.{Map, get, set, delete}
use test_assestment.JsMap.Laws.{AllValues, get-AllValues, set-AllValues, delete-AllValues}
use test_assestment.Adapter.Breaker.{BreakerState}
use test_assestment.Adapter.Cache.{CacheEntry, get_cached, set_cached, cached_call, on_rejected}
use test_assestment.Adapter.Cache.Bounds.{evict-drop}
use test_assestment.Adapter.Wrapped.{
  ExternalCallEvent, Waiting, Started, Wrapped, new, outcome_of, is_pending, settle, event_of,
  WrappedStep, calls, settles, promise_for, join_promise, go_on, call, is_on, forget,
  settle_promise, step, run,
}

-- Every promise in the cache is one of the first so many.
abbrev AllStarted : ℕ → Map CacheEntry → Type 0
AllStarted n cache = AllValues (λ e. e.promise < n) cache

AllStarted-later : (n : ℕ) (cache : Map CacheEntry) → AllStarted n cache → AllStarted (suc n) cache
AllStarted-later n cache h = All-mono (λ e lt. omega arith) cache h

set_cached-AllStarted :
    (ttl max n : ℕ) (key : String) (now : ℕ) (cache : Map CacheEntry)
    → AllStarted n cache
    → AllStarted (suc n) (set_cached ttl max key n now cache)
unfolding set_cached
set_cached-AllStarted ttl max n key now cache h =
    rw (evict-drop max (set key (record { promise = n; expires_at = now + ttl }) cache)) (
      All-drop _ _ _ (
        set-AllValues (λ e. e.promise < suc n) key _ cache (AllStarted-later n cache h)
          (omega arith)))

abbrev Promised : ℕ → ℕ × Bool × Map CacheEntry → Type 0
Promised n (p, hit, cache) =
    (hit ≡ true) × (p < n) × AllStarted n cache ⊎ (hit ≡ false) × (p ≡ n) × AllStarted (suc n) cache

abbrev Found : ℕ → Option CacheEntry × Map CacheEntry → Type 0
Found n (none, cache) = AllStarted n cache
Found n (some hit, cache) = (hit.promise < n) × AllStarted n cache

get_cached-Found :
    (n : ℕ) (key : String) (now : ℕ) (cache : Map CacheEntry)
    → AllStarted n cache
    → Found n (get_cached key now cache)
unfolding get_cached
get_cached-Found n key now cache h = elim (Option-cases (get key cache)) [
  | inl e ↦ rw (Found, get_cached, e) h
  | inr (v, e) ↦
      let lt = get-AllValues (λ x. x.promise < n) key cache h e in
      let gone = delete-AllValues (λ x. x.promise < n) key cache h in
      elim (Bool-cases (leb v.expires_at now)) [
        | inl b ↦ rw (Found, get_cached, e, b) gone
        | inr b ↦
            rw (Found, get_cached, e, b)
              (lt, set-AllValues (λ x. x.promise < n) key v (delete key cache) gone lt)
      ]
]

cached_call-Promised :
    (ttl max n : ℕ) (key : String) (now : ℕ) (cache : Map CacheEntry)
    → AllStarted n cache
    → Promised n (cached_call ttl max key n now cache)
unfolding cached_call
cached_call-Promised ttl max n key now cache h =
    from_lookup (get_cached key now cache) (get_cached-Found n key now cache h)
  where
    from_lookup :
        (r : Option CacheEntry × Map CacheEntry)
        → Found n r
        → Promised n (elim r.0 [
          | none ↦ (n, false, set_cached ttl max key n now r.1)
          | some hit ↦ (hit.promise, true, r.1)
        ])
    from_lookup (none, cache') g =
        inr (refl, refl, set_cached-AllStarted ttl max n key now cache' g)
    from_lookup (some hit, cache') (lt, g) = inl (refl, lt, g)

length-settle : (p : ℕ) (good : Bool) (xs : List Started) → length (settle p good xs) ≡ length xs
unfolding settle
length-settle p good [] = refl
length-settle p good (x ∷ xs) = ground (arith, length-settle p good xs)

outcome_of-settle :
    (p q : ℕ) (good : Bool) (xs : List Started)
    → nat_eq q p ≡ false
    → outcome_of q (settle p good xs) ≡ outcome_of q xs
unfolding outcome_of settle
outcome_of-settle p q good [] h = refl
outcome_of-settle p q good (x ∷ xs) h =
    ground (arith, length-settle p good xs, outcome_of-settle p q good xs h)

module _ (config : Option (ℕ × ℕ)) where
  promise_for-Promised :
      (key : String) (n now : ℕ) (cache : Map CacheEntry)
      → AllStarted n cache
      → Promised n (promise_for config key n now cache)
  unfolding promise_for
  promise_for-Promised key n now cache h = elim (Option-cases config) [
    | inl e ↦ rw e (inr (refl, refl, AllStarted-later n cache h))
    | inr ((ttl, max), e) ↦ rw e (cached_call-Promised ttl max n key now cache h)
  ]

-- The calls that did not find their promise in the cache.
abbrev pub misses : Wrapped → ℕ
misses s =
    length (filter (λ (w : Waiting). not w.cache_hit) s.waiting)
    + length (filter (λ (e : ExternalCallEvent). not e.cache_hit) s.events)

abbrev pub IsPending : Wrapped → Waiting → Type 0
IsPending s w = (w.promise < length s.started) × (outcome_of w.promise s.started ≡ none)

-- So many calls were made; each waits for a promise that has not settled, or has its event.
pub record Accounts (n : ℕ) (s : Wrapped) : Type 0 where
  pub counted : length s.waiting + length s.events ≡ n
  pub cached : AllStarted (length s.started) s.cache
  pub pending : All (IsPending s) s.waiting
  pub missed : misses s ≡ length s.started

-- How many calls the steps make.
abbrev pub made : List WrappedStep → ℕ
made [] = 0
made (calls d m key now b ∷ cs) = suc (made cs)
made (settles p good now b ∷ cs) = made cs

module _ (config : Option (ℕ × ℕ)) where
  abbrev starting : String → Wrapped → Wrapped
  starting key s = record s { started = record { key = key; outcome = none } ∷ s.started }

  start-IsPending :
      (key : String) (s : Wrapped) (w : Waiting) → IsPending s w → IsPending (starting key s) w
  unfolding outcome_of
  start-IsPending key s w (lt, e) =
      let apart : nat_eq w.promise (length s.started) ≡ false = ground arith in
      (omega arith, rw apart e)

  hit-Accounts :
      (n : ℕ) (d m : String) (now p : ℕ) (b : BreakerState) (s : Wrapped) (cache : Map CacheEntry)
      (o : Option Bool)
      → outcome_of p s.started ≡ o
      → p < length s.started
      → AllStarted (length s.started) cache
      → Accounts n s
      → let w : Waiting = record {
        delivery_id = d;
        method_name = m;
        started_at = now;
        cache_hit = true;
        promise = p;
      } in
        Accounts (suc n) (join_promise config w o b now (record s { cache = cache }))
  unfolding event_of
  hit-Accounts n d m now p b s cache none e lt h v = record {
    counted = rw length-append (omega (arith, v.counted));
    cached = h;
    pending = All-append (IsPending s) s.waiting _ v.pending ((lt, e), tt);
    missed = rw (filter-append, append-nil) v.missed;
  }
  hit-Accounts n d m now p b s cache (some good) e lt h v = record {
    counted = omega (arith, length-append s.events (event_of good b now _ ∷ []), v.counted);
    cached = h;
    pending = v.pending;
    missed = rw (filter-append, append-nil) v.missed;
  }

  miss-Accounts :
      (n : ℕ) (d m key : String) (now : ℕ) (b : BreakerState) (s : Wrapped) (cache : Map CacheEntry)
      → AllStarted (suc (length s.started)) cache
      → Accounts n s
      → Accounts (suc n) (go_on config d m key now b s (length s.started, false, cache))
  unfolding event_of outcome_of
  miss-Accounts n d m key now b s cache h v =
      let itself : nat_eq (length s.started) (length s.started) ≡ true = ground arith in
      rw (go_on, itself)
        (record {
          counted = rw length-append (omega (arith, v.counted));
          cached = h;
          pending =
              All-append (IsPending (starting key s)) s.waiting _
                (All-mono (start-IsPending key s) s.waiting v.pending)
                ((omega arith, rw itself refl), tt);
          missed = rw (filter-append, length-append) (omega (arith, v.missed));
        })

  go_on-Accounts :
      (n : ℕ) (delivery_id method_name key : String) (now : ℕ) (breaker_state : BreakerState)
      (s : Wrapped) (r : ℕ × Bool × Map CacheEntry)
      → Promised (length s.started) r
      → Accounts n s
      → Accounts (suc n) (go_on config delivery_id method_name key now breaker_state s r)
  go_on-Accounts n d m key now b s (p, hit, cache) (inl (e, lt, h)) v =
      rw e (hit-Accounts n d m now p b s cache (outcome_of p s.started) refl lt h v)
  go_on-Accounts n d m key now b s (p, hit, cache) (inr (e, f, h)) v =
      rw (e, f) (miss-Accounts n d m key now b s cache h v)

  forget-AllStarted :
      (good : Bool) (n : ℕ) (key : String) (cache : Map CacheEntry)
      → AllStarted n cache
      → AllStarted n (forget config good key cache)
  unfolding on_rejected
  forget-AllStarted true n key cache h = h
  forget-AllStarted false n key cache h = delete-AllValues (λ e. e.promise < n) key cache h

  module _ (p : ℕ) (good : Bool) (now : ℕ) (b : BreakerState) where
    settle-IsPending :
        (s : Wrapped) (ws : List Waiting)
        → All (IsPending s) ws
        → All
            (IsPending (record s { started = settle p good s.started }))
            (filter (λ w. not (is_on config p w)) ws)
    settle-IsPending s [] h = tt
    settle-IsPending s (w ∷ ws) ((lt, e), h) = elim (Bool-cases (nat_eq w.promise p)) [
      | inl c ↦ rw c (settle-IsPending s ws h)
      | inr c ↦ rw c (
        (
          omega (arith, length-settle p good s.started),
          outcome_of-settle p w.promise good s.started c ∙ e,
        ),
        settle-IsPending s ws h,
      )
    ]

    split_misses :
        (ws : List Waiting)
        → length
              (filter (λ (w : Waiting). not w.cache_hit) (filter (λ w. not (is_on config p w)) ws))
            + length (
                filter
                  (λ (e : ExternalCallEvent). not e.cache_hit)
                  (map (event_of good b now) (filter (is_on config p) ws)))
          ≡ length (filter (λ (w : Waiting). not w.cache_hit) ws)
    unfolding event_of
    split_misses [] = refl
    split_misses (w ∷ ws) = ground (arith, split_misses ws)

    split_calls :
        (ws : List Waiting)
        → length (filter (λ w. not (is_on config p w)) ws)
            + length (map (event_of good b now) (filter (is_on config p) ws))
          ≡ length ws
    split_calls [] = refl
    split_calls (w ∷ ws) = ground (arith, split_calls ws)

    settle_promise-Accounts :
        (n : ℕ) (s : Wrapped) → Accounts n s → Accounts n (settle_promise config p good now b s)
    unfolding settle_promise
    settle_promise-Accounts n s v = elim (Bool-cases (is_pending p s.started)) [
      | inr c ↦ rw c v
      | inl c ↦ rw c (record {
        counted =
            let all =
              length-append s.events
                (map (event_of good b now) (filter (is_on config p) s.waiting)) in
            omega (arith, all, split_calls s.waiting, v.counted);
        cached = rw (length-settle p good s.started) (forget-AllStarted good _ _ _ v.cached);
        pending = settle-IsPending s s.waiting v.pending;
        missed =
            let all = length-append (filter (λ (e : ExternalCallEvent). not e.cache_hit) s.events) (
              filter (λ (e : ExternalCallEvent). not e.cache_hit)
                (map (event_of good b now) (filter (is_on config p) s.waiting))) in
            rw (length-settle p good s.started, filter-append)
              (omega (arith, all, split_misses s.waiting, v.missed));
      })
    ]

  run_from-Accounts :
      (cs : List WrappedStep) (n : ℕ) (s : Wrapped)
      → Accounts n s
      → Accounts (made cs + n) (run config cs s)
  unfolding run step call
  run_from-Accounts [] n s v = subst (λ k. Accounts k s) (omega arith) v
  run_from-Accounts (calls d m key now b ∷ cs) n s v =
      let r = promise_for config key (length s.started) now s.cache in
      let start = promise_for-Promised config key (length s.started) now s.cache v.cached in
      let rest = run_from-Accounts cs (suc n) _ (go_on-Accounts n d m key now b s r start v) in
      subst (λ k. Accounts k (run config (calls d m key now b ∷ cs) s)) (omega arith) rest
  run_from-Accounts (settles p good now b ∷ cs) n s v =
      run_from-Accounts cs n _ (settle_promise-Accounts p good now b n s v)

  new-Accounts : Accounts 0 new
  unfolding new
  new-Accounts = record { counted = refl; cached = tt; pending = tt; missed = refl }

  -- However calls of wrapped methods and the ends of their promises follow on each other, each
  -- call either waits for a promise that was started and has not settled, or has emitted exactly
  -- one event; the calls that are no hits of the cache are as many as the promises that were
  -- started; and the cache holds started promises only.
  pub run-new-Accounts : (cs : List WrappedStep) → Accounts (made cs) (run config cs new)
  run-new-Accounts cs =
      subst (λ k. Accounts k (run config cs new)) (omega arith)
        (run_from-Accounts cs 0 new new-Accounts)
