-- ===== src/Projections.antt =====
-- src/projections.rs: persons, their distinct ids and groups, as the publisher derives them from events.
-- A table of the database is a map from its primary key. Texts of times are made by `TimeFormat`. A
-- statement that breaks a primary key fails; other failures of SQLite are left out, and so is the
-- catalog, which the source applies separately.
pub mod Store
pub mod Views
pub mod Properties
pub mod Merge
pub mod Identity
mod Tests
