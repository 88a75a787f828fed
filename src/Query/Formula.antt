-- ===== src/Query/Formula.antt =====
-- src/query/formula.rs: the formulas of a trends query.
pub mod Tokens
pub mod Parser
pub mod Evaluate
pub mod Accepted
pub mod Printer
pub mod Printed
mod Tests
