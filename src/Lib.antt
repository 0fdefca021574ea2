-- ===== src/Lib.antt =====
-- Ganglion keeps the metadata of a cluster (live nodes, owners and followers of resources,
-- attributes) in one snapshot, replicates commands on it with raft, and fences owners by epochs.
--
-- * Core models crates/ganglion-core/src/lib.rs: Core.Model the records, Core.Durability the
--   durability policies (resolve, validate), Core.Epoch the fencing rule
--   (next_assignment_epoch, stamp_assignment_epochs), Core.Placement the deterministic policy
--   with gather_followers, Core.Placement.Balanced the load-aware one, and Core.Roles
--   plan_local_assignment_transitions. Core.Shared models crates/ganglion-core/src/shared.rs, the
--   copy-on-write handle of the collections in a snapshot, on a heap with counts; Core.Model holds
--   these collections as plain values.
-- * Storage models crates/ganglion-storage/src/lib.rs: Storage.MemoryLog the InMemoryMetadataLog,
--   Storage.FileLog the FileMetadataLog with its two replay policies, Storage.Persisted the form
--   in which an entry is written (encode_snapshot, decode_snapshot), Storage.KeratinLog the
--   KeratinMetadataLog over the crate keratin_log, which is a record of its calls with the laws
--   that the code relies on (Storage.KeratinLog.Scan).
-- * Openraft models crates/ganglion-openraft/src/openraft_runtime. Openraft.Command holds the
--   commands, rejections and replies of mod.rs. Openraft.StateMachine is the apply_command
--   closure of storage.rs, and Openraft.Machine the rest of GanglionStateMachine: batches of
--   entries, the watch channel, and in Openraft.Machine.Snapshots build_snapshot,
--   install_snapshot and persistent, and in Openraft.Machine.Keyed the readers of the committed
--   state. Openraft.Wal is the fold of WAL records of durable.rs,
--   Openraft.LogFile the FileRaftLogStore on a file with its writer, the last line of which may lack
--   its newline (Openraft.LogFile.Unended), Openraft.LogFile.Queue the writer's batches,
--   Openraft.LogFile.Calls a store over a run of calls, Openraft.MemoryLog the GanglionLogStore of storage.rs, and
--   Openraft.LogReader the try_get_log_entries of both.
-- * Adapter models crates/ganglion-openraft/src/lib.rs: Adapter.Log the trait MetadataLog as a
--   record of operations, the contract that a node relies on, and its two logs, Adapter.Node the
--   OpenraftLikeStore and MetadataNode, Adapter.Profile the replay profiles, and
--   Adapter.Profile.Persisted and Adapter.Profile.Opening the constructors of
--   PersistedMetadataNode. Adapter.Consensus is the trait MetadataConsensus as a record of
--   operations, the contract of its callers and its two implementations, and
--   Adapter.Consensus.Publish is plan_and_publish.
-- * Transport models tcp.rs, network.rs and peer_health.rs of openraft_runtime: Transport.Stream
--   the byte streams of tokio, Transport.Frame write_frame and read_frame, Transport.Server
--   serve_connection, Transport.Connection the call and try_call of a kept connection with its
--   idle task, Transport.Client the RPC methods and forwarded writes, Transport.PeerHealth the
--   failures per peer, and Transport.Router the InProcessRouter of network.rs.
-- * RaftNode models openraft_runtime/node.rs: submit_command, in RaftNode.Merges its callers with
--   one command each, and plan_and_propose_guarded; RaftNode.Restart is open_durable_storage,
--   RaftNode.Membership the calls that form the group, wait for it and show it,
--   RaftNode.WatchLeader the task behind watch_leader, and RaftNode.Bootstrap initialize and the
--   warnings before it. RaftNode.Forwarding puts Transport.Server before the state machine, for the
--   writes that other nodes forward to the leader.
-- * Coordination models crates/ganglion-coordination/src/lib.rs, Coordination.Watch the watch
--   channel of tokio by its documented laws.
-- * Prelude holds the shared helpers and BTreeMap the ordered maps of the standard library.
--
-- A planner's snapshot is stamped by Core.Epoch and proposed by RaftNode as a guarded command, on
-- the leader or through Transport; the state machine applies it in log order, and the log store
-- keeps the entries over a restart. The older path of Adapter writes whole snapshots to a log of
-- Storage.
--
-- State is passed explicitly: an operation takes the struct as a record and gives the new record
-- with its result. A u64 is a natural number whose additions keep their wrap-around, as in a
-- release build. A mutex is not modelled, since each operation holds its lock throughout.
-- openraft's vote, leader id and membership are type parameters, and serde_json is a Codec, with
-- RoundTrips where a theorem needs that what is written can be read; for the metadata logs it is a
-- SerdeJson, with Reads, from which Storage.Persisted makes the LineCodec of a log. That reads back
-- the snapshots whose assignments are in key order, as those of every BTreeMap are; other lists of
-- assignments stand for no map. What the disk does is an
-- argument (DiskAppend, DiskWrite, FileWrite), so the theorems hold for every failure it lists. So
-- are the bytes and errors of a stream, dials and timeouts (CallEnvironment), and the commands that
-- others commit around a guarded write (Attempt).
--
-- There is fuel in three places. That of fill_followers, the while loop of gather_followers, is
-- twice the number of nodes, the cursor's bound in the source, so the loop's own break comes
-- first. That of serve_connection counts the turns of its loop, each of which takes at least
-- five bytes. That of the scan of Storage.KeratinLog counts the batches that it reads, of which
-- each holds a record. The retries of plan_and_propose_guarded are its recursion.
--
-- Not modelled: the start functions of the raft node, which only build openraft, a server and a
-- network from the parts above; binding and accepting of sockets; the counters behind the
-- telemetry, of which StorageTelemetrySnapshot is a copy; the crate ganglion, which passes names
-- on; crates/ganglion-openraft/examples/cluster_demo.rs, a command line over the node.
pub mod Prelude
pub mod BTreeMap
pub mod Core
pub mod Storage
pub mod Adapter
pub mod Openraft
pub mod Transport
pub mod RaftNode
pub mod Coordination
