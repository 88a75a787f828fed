-- ===== src/Query.antt =====
-- src/query/: what the queries compute outside the database.
pub mod Outcome
pub mod Formula
pub mod Funnels
