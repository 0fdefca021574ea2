-- ===== src/Openraft.antt =====
-- `crates/ganglion-openraft/src`: the replicated metadata store.
pub mod Command
pub mod StateMachine
pub mod Machine
pub mod Wal
pub mod LogFile
pub mod MemoryLog
pub mod LogReader
pub mod Samples
