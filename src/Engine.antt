-- ===== src/Engine.antt =====
-- internal/engine: the pool of drivers, the cache of resolved tables, and the circuit breaker of
-- internal/observability that guards the creation of drivers.
pub mod Pool
pub mod Breaker
pub mod MetaCache
pub mod Action
pub mod Operations
pub mod Samples
mod Tests
