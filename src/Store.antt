-- ===== src/Store.antt =====
-- tile/store: the persistent records, the tables of the SQLite store and its atomic operations.
pub mod Models
pub mod Action
pub mod Tables
pub mod Rows
pub mod Serialization
pub mod Sqlite
pub mod Consistency
pub mod Effects
pub mod History
pub mod Operations
