-- ===== src/Storage.antt =====
-- `crates/ganglion-storage/src/lib.rs`: the metadata logs.
pub mod MemoryLog
pub mod FileLog
pub mod Persisted
pub mod KeratinLog
pub mod Samples
mod Tests
