-- ===== src/Openraft/Machine/Snapshots.antt =====
-- The snapshot file of `crates/ganglion-openraft/src/openraft_runtime/storage.rs`: building,
-- installing and loading. The temporary file is not kept: nothing reads it.
use ganglion.Prelude.{ℕ, ◌+◌, Option, some, none, true, [], ◌∷◌, if◌then◌else◌, Result, ok, err}
use ganglion.Core.Model.{Str, CoordinationSnapshot, default_snapshot}
use ganglion.Openraft.Command.{LogId}
use ganglion.Openraft.Machine.{
  Bytes, Codec, StorageError, read_snapshot, write_snapshot, read_state_machine, DiskWrite, synced,
  fails_before_rename, fails_after_rename, SnapshotMeta, StoredSnapshot, StateMachineInner,
  GanglionStateMachine,
}

-- The state in snapshot bytes; no bytes at all stand for the default state.
unfoldable pub read_state : Codec CoordinationSnapshot → Bytes → Option CoordinationSnapshot
read_state codec [] = some default_snapshot
read_state codec (b ∷ bs) = codec.from_slice (b ∷ bs)

-- The snapshot that `build_snapshot` assembles from the serialized state.
abbrev pub pack_snapshot :
    {L S : Type 0}
    → (Option (LogId L) → ℕ → Str)
    → StateMachineInner L S
    → Bytes
    → StoredSnapshot L S
pack_snapshot name_snapshot inner bytes = record {
  meta = record {
    last_log_id = inner.last_applied;
    last_membership = inner.last_membership;
    snapshot_id = name_snapshot inner.last_applied (inner.snapshot_idx + 1);
  };
  bytes = bytes;
}

module _ {L S : Type 0} (stored_codec : Codec (StoredSnapshot L S)) where
  -- `persist_snapshot`
  persist_snapshot :
      DiskWrite
      → GanglionStateMachine L S
      → StoredSnapshot L S
      → Result StorageError (Unit {0}) × GanglionStateMachine L S
  persist_snapshot write machine stored =
      if machine.has_path
      then elim (stored_codec.to_vec stored) [
        | none ↦ (err write_snapshot, machine)
        | some bytes ↦ elim write [
          | synced ↦ (
            ok tt,
            record machine { disk = some bytes; snapshot_persists = machine.snapshot_persists + 1 },
          )
          | fails_before_rename ↦ (err write_snapshot, machine)
          | fails_after_rename ↦ (err write_snapshot, record machine { disk = some bytes })
        ]
      ]
      else (ok tt, machine)

  -- `build_snapshot`; `name_snapshot` formats the id.
  unfoldable pub build_snapshot :
      Codec CoordinationSnapshot
      → (Option (LogId L) → ℕ → Str)
      → DiskWrite
      → GanglionStateMachine L S
      → Result StorageError (StoredSnapshot L S) × GanglionStateMachine L S
  unfolding persist_snapshot
  build_snapshot codec name_snapshot write machine = elim (codec.to_vec machine.inner.state) [
    | none ↦ (err read_state_machine, machine)
    | some bytes ↦
        let inner = machine.inner in
        let idx = inner.snapshot_idx + 1 in
        let stored = pack_snapshot name_snapshot inner bytes in
        let (result, written) =
          persist_snapshot write (record machine { inner = record inner { snapshot_idx = idx } })
            stored in
        elim result [
          | err e ↦ (err e, written)
          | ok _ ↦ (
            ok stored,
            record written {
              inner = record inner { snapshot_idx = idx; current_snapshot = some stored };
            },
          )
        ]
  ]

  -- `install_snapshot`
  unfoldable pub install_snapshot :
      Codec CoordinationSnapshot
      → DiskWrite
      → GanglionStateMachine L S
      → SnapshotMeta L S
      → Bytes
      → Result StorageError (Unit {0}) × GanglionStateMachine L S
  unfolding persist_snapshot read_state
  install_snapshot codec write machine meta bytes = elim (read_state codec bytes) [
    | none ↦ (err read_snapshot, machine)
    | some state ↦
        let stored : StoredSnapshot L S = record { meta = meta; bytes = bytes } in
        let (result, written) = persist_snapshot write machine stored in
        elim result [
          | err e ↦ (err e, written)
          | ok _ ↦ (
            ok tt,
            record written {
              inner = record {
                last_applied = meta.last_log_id;
                last_membership = meta.last_membership;
                state = state;
                snapshot_idx = machine.inner.snapshot_idx;
                current_snapshot = some stored;
              };
              published = state;
            },
          )
        ]
  ]

  -- `persistent`: open at a path whose file has the given content. `empty_membership` is openraft's
  -- default.
  unfoldable pub persistent :
      Codec CoordinationSnapshot → S → Option Bytes → Result StorageError (GanglionStateMachine L S)
  unfolding read_state
  persistent codec empty_membership none = ok (record {
    inner = record {
      last_applied = none;
      last_membership = empty_membership;
      state = default_snapshot;
      snapshot_idx = 0;
      current_snapshot = none;
    };
    published = default_snapshot;
    has_path = true;
    disk = none;
    snapshot_persists = 0;
    snapshot_loads = 0;
  })
  persistent codec empty_membership (some file) = elim (stored_codec.from_slice file) [
    | none ↦ err read_snapshot
    | some stored ↦ elim (read_state codec stored.bytes) [
      | none ↦ err read_snapshot
      | some state ↦ ok (record {
        inner = record {
          last_applied = stored.meta.last_log_id;
          last_membership = stored.meta.last_membership;
          state = state;
          snapshot_idx = 0;
          current_snapshot = some stored;
        };
        published = state;
        has_path = true;
        disk = some file;
        snapshot_persists = 0;
        snapshot_loads = 1;
      })
    ]
  ]
