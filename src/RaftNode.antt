-- ===== src/RaftNode.antt =====
-- `RaftMetadataNode` of `crates/ganglion-openraft/src/openraft_runtime/node.rs`: writes through
-- raft. Between two steps of a call other commands are committed, and openraft commits a write or
-- refuses it: both are chosen by the environment.
pub mod Rivals
pub mod Propose
pub mod Replicated
pub mod Merges
pub mod Restart
pub mod Membership
pub mod WatchLeader
pub mod Bootstrap
pub mod Forwarding
mod Tests
use ganglion.Prelude.{
  ℕ, zero, suc, ◌+◌, Option, some, none, Bool, true, false, List, [], ◌∷◌, wrapping_add,
  if◌then◌else◌, Result, ok, err,
}
use ganglion.Core.Model.{Str, CoordinationSnapshot, ResourceIdentity, NodeInfo}
use ganglion.Core.Epoch.{stamp_assignment_epochs}
use ganglion.Adapter.Error.{
  OpenraftAdapterError, not_leader, stale_generation, generation_mismatch, attribute_mismatch,
  storage,
}
use ganglion.Openraft.Command.{
  MetadataRaftCommand, apply_snapshot, apply_snapshot_guarded, register_node, deregister_node,
  register_resource, deregister_resource, set_attribute, remove_attribute,
  compare_and_set_attribute, MetadataRejection, MetadataRaftResponse,
}
use ganglion.Openraft.Command as Command
use ganglion.Openraft.StateMachine.{apply_command}
pub use ganglion.Transport.Server.{ClientWriteError, forward_to_leader, other_write_error}

abbrev pub RaftNodeError : Type 0
RaftNodeError = OpenraftAdapterError Str

-- What becomes of a write.
pub data WriteOutcome : Type 0 where
  committed : WriteOutcome
  refused : ClientWriteError → WriteOutcome

-- `map_membership_error`
unfoldable pub map_membership_error : ClientWriteError → RaftNodeError
map_membership_error (forward_to_leader leader) = not_leader
map_membership_error (other_write_error text) = storage text

abbrev pub rejection_error : MetadataRejection → RaftNodeError
rejection_error Command.stale_generation = stale_generation
rejection_error (Command.generation_mismatch expected actual) = generation_mismatch expected actual
rejection_error (Command.attribute_mismatch key actual) = attribute_mismatch key actual

-- The answer of the state machine to a command.
abbrev pub response_to : CoordinationSnapshot → MetadataRaftCommand → MetadataRaftResponse
response_to s command =
    let outcome = apply_command s command in
    record {
      accepted = elim outcome.rejection [ none ↦ true | some r ↦ false ];
      rejection = outcome.rejection;
      snapshot = outcome.state;
    }

unfoldable pub submit_command :
    CoordinationSnapshot
    → MetadataRaftCommand
    → WriteOutcome
    → Result RaftNodeError MetadataRaftResponse × CoordinationSnapshot
unfolding map_membership_error
submit_command s command (refused error) = (err (map_membership_error error), s)
submit_command s command committed =
    let response = response_to s command in
    (
      elim response.rejection [
        | none ↦ ok response
        | some rejection ↦ err (rejection_error rejection)
      ],
      response.snapshot,
    )

unfoldable pub write_snapshot :
    CoordinationSnapshot
    → CoordinationSnapshot
    → WriteOutcome
    → Result RaftNodeError MetadataRaftResponse × CoordinationSnapshot
unfolding submit_command
write_snapshot s snapshot = submit_command s (apply_snapshot snapshot)

unfoldable pub write_snapshot_guarded :
    CoordinationSnapshot
    → ℕ
    → CoordinationSnapshot
    → WriteOutcome
    → Result RaftNodeError MetadataRaftResponse × CoordinationSnapshot
unfolding submit_command
write_snapshot_guarded s expected_generation snapshot =
    submit_command s (apply_snapshot_guarded expected_generation snapshot)

-- Commands that others get committed, one after the other.
unfoldable pub apply_all : CoordinationSnapshot → List MetadataRaftCommand → CoordinationSnapshot
apply_all s [] = s
apply_all s (command ∷ commands) = apply_all (apply_command s command).state commands

-- What happens around one attempt: the commands before its read, those between its read and its
-- write, and what becomes of the write.
pub record Attempt : Type 0 where
  pub before : List MetadataRaftCommand
  pub between : List MetadataRaftCommand
  pub write : WriteOutcome

-- What an attempt proposes from the snapshot that it read. The generation wraps as in a release
-- build.
unfoldable pub desired :
    (CoordinationSnapshot → CoordinationSnapshot) → CoordinationSnapshot → CoordinationSnapshot
unfolding stamp_assignment_epochs
desired plan read =
    (stamp_assignment_epochs read
      (record (plan read) { generation = wrapping_add read.generation 1 })).0

-- One turn of the loop of `plan_and_propose_guarded`.
unfoldable pub attempt :
    (CoordinationSnapshot → CoordinationSnapshot)
    → CoordinationSnapshot
    → Attempt
    → Result RaftNodeError MetadataRaftResponse × CoordinationSnapshot
unfolding apply_all desired write_snapshot_guarded
attempt plan s a =
    let read = apply_all s a.before in
    write_snapshot_guarded (apply_all read a.between) read.generation (desired plan read) a.write

-- The guard of the `match` that tries again.
abbrev pub lost_race : Result RaftNodeError MetadataRaftResponse → Bool
lost_race (err (generation_mismatch expected actual)) = true
lost_race _ = false

-- `plan_and_propose_guarded` with as many retries left, at the attempt with a number.
unfoldable pub plan_and_propose_guarded :
    (CoordinationSnapshot → CoordinationSnapshot)
    → (ℕ → Attempt)
    → ℕ
    → ℕ
    → CoordinationSnapshot
    → Result RaftNodeError MetadataRaftResponse × CoordinationSnapshot
unfolding attempt
plan_and_propose_guarded plan env zero n s = attempt plan s (env n)
plan_and_propose_guarded plan env (suc retries) n s =
    let (result, after) = attempt plan s (env n) in
    let again = plan_and_propose_guarded plan env retries (n + 1) after in
    if lost_race result then again else (result, after)
