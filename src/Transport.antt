-- ===== src/Transport.antt =====
-- `crates/ganglion-openraft/src/openraft_runtime/tcp.rs` and `peer_health.rs`: the frames, the
-- server of one connection, the client side of one, and the health of the peers.
pub mod Stream
pub mod Frame
pub mod Wire
pub mod Server
pub mod PeerHealth
pub mod Connection
pub mod Client
pub mod Router
mod Tests
