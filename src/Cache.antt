-- ===== src/Cache.antt =====
-- `src/cache.rs`: the local query cache `FieldQueryCache` of a worker.
pub mod Fields
pub mod Keys
pub mod Invariant
pub mod Alloc
pub mod Save
pub mod Scope
pub mod Store
pub mod Contract
pub mod Generations
pub mod History
pub mod Tracked
pub mod Run
pub mod Split
pub mod StaleHit
pub mod Query
pub mod Announced
