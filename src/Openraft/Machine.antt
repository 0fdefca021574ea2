-- ===== src/Openraft/Machine.antt =====
-- `GanglionStateMachine` of `crates/ganglion-openraft/src/openraft_runtime/storage.rs`: the entries
-- of a batch, the watch channel, and the snapshot file. openraft's leader id, membership and
-- stored membership are type parameters; `serde_json` is a pair of functions; what the disk does
-- with a write is chosen by the environment.
pub mod Snapshots
pub mod Published
pub mod Batches
pub mod Recovery
pub mod Keyed
mod Tests
use ganglion.Prelude.{
  ℕ, ◌+◌, Option, some, none, Bool, true, false, List, [], ◌∷◌, ◌≡◌, ◌||◌, if◌then◌else◌, Result,
  ok, err,
}
use ganglion.Core.Model.{Str, CoordinationSnapshot, default_snapshot}
use ganglion.Openraft.Command.{
  LogId, Entry, EntryPayload, blank, normal, membership, MetadataRaftResponse,
}
use ganglion.Openraft.StateMachine.{Outcome, apply_command}

abbrev pub Bytes : Type 0
Bytes = List ℕ

-- `serde_json::to_vec` and `serde_json::from_slice` at one type.
pub record Codec (A : Type 0) : Type 0 where
  pub to_vec : A → Option Bytes
  pub from_slice : Bytes → Option A

-- What is written can be read back.
abbrev pub RoundTrips : {A : Type 0} → Codec A → Type 0
RoundTrips {A} c = (a : A) (bytes : Bytes) → c.to_vec a ≡ some bytes → c.from_slice bytes ≡ some a

pub data StorageError : Type 0 where
  read_snapshot write_snapshot read_state_machine : StorageError

-- How a write to the temporary file, its sync, the rename and the directory sync end.
pub data DiskWrite : Type 0 where
  synced fails_before_rename fails_after_rename : DiskWrite

pub record SnapshotMeta (L S : Type 0) : Type 0 where
  pub last_log_id : Option (LogId L)
  pub last_membership : S
  pub snapshot_id : Str

pub record StoredSnapshot (L S : Type 0) : Type 0 where
  pub meta : SnapshotMeta L S
  pub bytes : Bytes

pub record StateMachineInner (L S : Type 0) : Type 0 where
  pub last_applied : Option (LogId L)
  pub last_membership : S
  pub state : CoordinationSnapshot
  pub snapshot_idx : ℕ
  pub current_snapshot : Option (StoredSnapshot L S)

-- `published` is the value in the watch channel; `disk` is the file at `snapshot_path`, and
-- `has_path` tells whether the machine was opened with one.
pub record GanglionStateMachine (L S : Type 0) : Type 0 where
  pub inner : StateMachineInner L S
  pub published : CoordinationSnapshot
  pub has_path : Bool
  pub disk : Option Bytes
  pub snapshot_persists : ℕ
  pub snapshot_loads : ℕ

module _ {L M S : Type 0} (stored_membership : Option (LogId L) → M → S) where
  -- The body of the loop over the entries, with `state_changed` beside the new state.
  unfoldable pub apply_payload :
      StateMachineInner L S
      → LogId L
      → EntryPayload M
      → StateMachineInner L S × MetadataRaftResponse × Bool
  apply_payload inner log_id blank = (
    record inner { last_applied = some log_id },
    record { accepted = true; rejection = none; snapshot = inner.state },
    false,
  )
  apply_payload inner log_id (normal command) =
      let outcome = apply_command inner.state command in
      (
        record inner { last_applied = some log_id; state = outcome.state },
        record {
          accepted = elim outcome.rejection [ none ↦ true | some _ ↦ false ];
          rejection = outcome.rejection;
          snapshot = outcome.state;
        },
        outcome.changed,
      )
  apply_payload inner log_id (membership m) = (
    record inner {
      last_applied = some log_id;
      last_membership = stored_membership (some log_id) m;
    },
    record { accepted = true; rejection = none; snapshot = inner.state },
    false,
  )

  unfoldable pub apply_entries :
      StateMachineInner L S
      → List (Entry L M)
      → StateMachineInner L S × List MetadataRaftResponse × Bool
  unfolding apply_payload
  apply_entries inner [] = (inner, [], false)
  apply_entries inner (entry ∷ entries) =
      let (next, reply, changed) = apply_payload inner entry.log_id entry.payload in
      let (last, replies, later) = apply_entries next entries in
      (last, reply ∷ replies, changed || later)

  -- `apply`: the state is published once for the batch, if anything in it changed it.
  unfoldable pub apply :
      GanglionStateMachine L S
      → List (Entry L M)
      → GanglionStateMachine L S × List MetadataRaftResponse
  unfolding apply_entries
  apply machine entries =
      let (inner, replies, changed) = apply_entries machine.inner entries in
      (
        record machine {
          inner = inner;
          published = if changed then inner.state else machine.published;
        },
        replies,
      )
