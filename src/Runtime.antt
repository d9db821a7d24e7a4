-- ===== src/Runtime.antt =====
-- `src/runtime.rs`: the registry of providers, the result caches and the execution of queries.
pub mod Types
pub mod Params
pub mod State
pub mod Configure
pub mod Ask
pub mod Execute
pub mod Entry
pub mod Redis
pub mod Registry
pub mod Named
pub mod Answers
pub mod Reload
pub mod Race
pub mod Counters
pub mod Keeps
