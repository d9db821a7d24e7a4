-- ===== src/SqlRoute.antt =====
-- `src/sql_route.rs`: which provider a query is for, and the query without the provider's prefix.
pub mod Scan
pub mod Table
pub mod Strip
pub mod Keyword
pub mod Lexer
pub mod Word
pub mod Pairs
pub mod Parens
pub mod Subquery
pub mod Memo
pub mod Events
pub mod Fresh
pub mod Encoding
