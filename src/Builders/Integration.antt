-- ===== src/Builders/Integration.antt =====
-- integration of engine/src/engine/builders/integration.ts, and the configurations of
-- engine/src/public/integration.ts.
pub mod Made
use test_assestment.Common.{ℕ, String, Option, none, some}
use test_assestment.Duration.{Duration}
use test_assestment.Adapter.Breaker.{BreakerConfig}
use test_assestment.Adapter.Retry.{RetryConfig}

pub record CacheConfig : Type 0 where
  pub ttl : Duration
  pub max : Option ℕ

pub record IntegState : Type 0 where
  pub name : String
  pub cache : Option CacheConfig
  pub breaker : Option BreakerConfig
  pub concurrency : Option ℕ
  pub retry : Option RetryConfig

pub data IntegCall : Type 0 where
  cache_by : CacheConfig → IntegCall
  breaker_by : BreakerConfig → IntegCall
  concurrency_of : ℕ → IntegCall
  retry_by : RetryConfig → IntegCall

-- What is registered: the configuration and the methods.
pub record IntegrationConfig {ℓ} (M : Type ℓ) : Type ℓ where
  pub config : IntegState
  pub methods : M

unfoldable pub integration : String → IntegState
integration name = record {
  name = name;
  cache = none;
  breaker = none;
  concurrency = none;
  retry = none;
}

unfoldable pub call : IntegCall → IntegState → IntegState
call (cache_by cfg) s = record s { cache = some cfg }
call (breaker_by cfg) s = record s { breaker = some cfg }
call (concurrency_of limit) s = record s { concurrency = some limit }
call (retry_by cfg) s = record s { retry = some cfg }

unfoldable pub methods_of {ℓ} : {M : Type ℓ} → IntegState → M → IntegrationConfig M
methods_of s methods = record { config = s; methods = methods }
