-- ===== src/Engine/Store/Sound.antt =====
-- What holds of a store between calls: the index points at records that are on disk.
pub mod Defs
pub mod Grow
pub mod Publish
pub mod Keep
pub mod Write
pub mod Number
pub mod Refine
pub mod Batch
pub mod Served
