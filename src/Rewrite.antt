-- ===== src/Rewrite.antt =====
-- `src/postgres.rs`, `src/mysql.rs`: the named parameters of a query as the placeholders of a driver.
pub mod Tokens
pub mod Place
pub mod Bind
pub mod Bound
pub mod Pieces
pub mod Numbered
pub mod InOrder
pub mod Scanned
pub mod Alike
pub mod Sent
pub mod Marks
pub mod Numbers
