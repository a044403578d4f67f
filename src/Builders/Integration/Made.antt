-- ===== src/Builders/Integration/Made.antt =====
-- The integration that a builder makes, read off the calls that were made on it.
use test_assestment.Common.{String, ◌≡◌, refl, ap, ◌∙◌, Option, none, some, List, [], ◌∷◌, ℕ}
use test_assestment.Adapter.Breaker.{BreakerConfig}
use test_assestment.Adapter.Retry.{RetryConfig}
use test_assestment.Builders.{calls, last_of, or_else, or_else-or_else, or_else-none}
use test_assestment.Builders.Integration.{
  CacheConfig, IntegState, IntegCall, cache_by, breaker_by, concurrency_of, retry_by, integration,
  call, methods_of,
}

abbrev pub cache_of : IntegCall → Option CacheConfig
cache_of (cache_by cfg) = some cfg
cache_of c = none

abbrev pub breaker_of : IntegCall → Option BreakerConfig
breaker_of (breaker_by cfg) = some cfg
breaker_of c = none

abbrev pub limit_of : IntegCall → Option ℕ
limit_of (concurrency_of limit) = some limit
limit_of c = none

abbrev pub retry_of : IntegCall → Option RetryConfig
retry_of (retry_by cfg) = some cfg
retry_of c = none

abbrev after_calls : List IntegCall → IntegState → IntegState
after_calls cs s = record {
  name = s.name;
  cache = or_else (last_of cache_of cs) s.cache;
  breaker = or_else (last_of breaker_of cs) s.breaker;
  concurrency = or_else (last_of limit_of cs) s.concurrency;
  retry = or_else (last_of retry_of cs) s.retry;
}

after_calls-cons :
    (c : IntegCall) (cs : List IntegCall) (s : IntegState)
    → after_calls cs (call c s) ≡ after_calls (c ∷ cs) s
unfolding call last_of
after_calls-cons (cache_by x) cs s = simp or_else-or_else
after_calls-cons (breaker_by x) cs s = simp or_else-or_else
after_calls-cons (concurrency_of x) cs s = simp or_else-or_else
after_calls-cons (retry_by x) cs s = simp or_else-or_else

calls-after_calls : (cs : List IntegCall) (s : IntegState) → calls call cs s ≡ after_calls cs s
unfolding calls last_of
calls-after_calls [] s = refl
calls-after_calls (c ∷ cs) s = calls-after_calls cs (call c s) ∙ after_calls-cons c cs s

abbrev pub said : String → List IntegCall → IntegState
said name cs = record {
  name = name;
  cache = last_of cache_of cs;
  breaker = last_of breaker_of cs;
  concurrency = last_of limit_of cs;
  retry = last_of retry_of cs;
}

pub methods_of-calls {ℓ} :
    {M : Type ℓ} (name : String) (cs : List IntegCall) (methods : M)
    → methods_of (calls call cs (integration name)) methods
      ≡ record { config = said name cs; methods = methods }
unfolding methods_of integration
methods_of-calls name cs methods =
    ap (λ s. record { config = s; methods = methods })
      (calls-after_calls cs (integration name) ∙ simp or_else-none)
