-- ===== src/Engine.antt =====
-- internal/engine: the storage engine.
pub mod Record
pub mod Index
pub mod Files
pub mod Store
pub mod Recover
pub mod Hint
pub mod Open
pub mod Replica
pub mod Compact
pub mod Snapshot
pub mod Since
