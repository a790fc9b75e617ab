-- ===== src/Storage.antt =====
-- crates/storage and crates/storage-sqlite: the storage interface, and its implementation by SQL.
pub mod Types
pub mod Sql
pub mod Db
pub mod Channels
pub mod Catalog
pub mod Mappings
pub mod Aliases
pub mod Costs
pub mod Logs
pub mod Lifecycle
pub mod Integrity
pub mod Seed
pub mod Samples
mod Tests
