-- ===== src/Coordinator.antt =====
-- src/coordinator/mod.rs and src/coordinator/schema.rs: the coordinator's public SQLite store.
pub mod Sql
pub mod Schema
pub mod Rows
pub mod Sqlite
pub mod Kept
pub mod Store
pub mod Migrate
pub mod Lookup
pub mod Orders
pub mod Listing
pub mod Replay
pub mod Held
pub mod Reachable
pub mod Policy
pub mod Roster
pub mod Churn
pub mod Found
