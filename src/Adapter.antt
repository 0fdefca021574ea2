-- ===== src/Adapter.antt =====
-- `crates/ganglion-openraft/src/lib.rs`: the metadata node over a metadata log, and the profile by
-- which a persisted node recovers.
pub mod Error
pub mod Log
pub mod Node
pub mod Profile
pub mod Consensus
mod Tests
