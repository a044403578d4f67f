-- ===== src/Adapter.antt =====
-- engine/src/engine/adapter.ts: the resilience layers around the methods of an integration. Each
-- layer is a child; `Wrapped` is about the methods that callers see, with their cache and events.
pub mod Breaker
pub mod Semaphore
pub mod Cache
pub mod Retry
pub mod Layers
pub mod Wrapped
