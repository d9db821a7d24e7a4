-- ===== src/Examples.antt =====
-- The tests, and the theorems at concrete inputs.
mod Route
mod Local
mod Serve
mod Pool
mod Phase
mod World
mod Host
mod Rewriting
mod Refreshing
mod SetUp
mod Intranet
mod Addresses
mod Tables
mod Registry
mod Session
