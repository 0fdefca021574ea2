-- ===== src/Core.antt =====
-- `crates/ganglion-core/src/lib.rs`, a module for each of its parts.
pub mod Model
pub mod Durability
pub mod Epoch
pub mod Placement
pub mod Roles
pub mod Shared
mod Tests
