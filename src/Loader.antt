-- ===== src/Loader.antt =====
-- `src/loader.rs`: the tables of the authority, which are loaded from files.
pub mod Config
pub mod Rows
pub mod Good
pub mod Inserted
pub mod Batch
pub mod Batches
pub mod Table
pub mod Authority
pub mod Loaded
pub mod Total
