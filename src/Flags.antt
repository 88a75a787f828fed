-- ===== src/Flags.antt =====
-- src/flags/: the evaluation of feature flags.
pub mod Library
pub mod Text
pub mod Dates
pub mod Condition
pub mod Evaluation
pub mod Subject
mod Tests
