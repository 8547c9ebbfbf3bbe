-- ===== src/Tests.antt =====
-- Concrete inputs: samples, and the theorems applied to them.
mod Samples
mod Storing
mod Reading
mod Merging
mod Logs
mod Opening
mod Sessions
mod Wire
mod Cluster
