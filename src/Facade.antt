-- ===== src/Facade.antt =====
-- `src/facade.rs`: the functions that a host calls, over the runtime and the caches.
pub mod Queries
pub mod CacheQuery
pub mod CacheQueryAsync
pub mod Fresh
pub mod Kept
pub mod Install
pub mod Redis
pub mod Stale
pub mod Specs
pub mod Setup
pub mod Init
pub mod Registered
pub mod Uncached
pub mod Twice
pub mod Served
pub mod ByHand
