-- ===== src/Openraft/Machine/Recovery.antt =====
-- Recovery from the snapshot file.
use ganglion.Prelude.{
  ℕ, Option, some, true, [], ◌∷◌, ◌≡◌, ◌≢◌, ◌⊎◌, refl, arith, ap, ◌∙◌, ok, err, Option-cases, inl,
  inr,
}
use ganglion.Core.Model.{Str, CoordinationSnapshot}
use ganglion.Openraft.Command.{LogId}
use ganglion.Openraft.Machine.{
  Bytes, Codec, RoundTrips, StorageError, DiskWrite, synced, fails_before_rename,
  fails_after_rename, StoredSnapshot, GanglionStateMachine,
}
use ganglion.Openraft.Machine.Snapshots.{pack_snapshot, read_state, build_snapshot, persistent}

read_state_nonempty :
    (codec : Codec CoordinationSnapshot) (bytes : Bytes)
    → (bytes ≡ [] → ⊥)
    → read_state codec bytes ≡ codec.from_slice bytes
unfolding read_state
read_state_nonempty codec [] h = absurd (h refl)
read_state_nonempty codec (b ∷ bs) h = refl

write-cases : (w : DiskWrite) → (w ≡ fails_after_rename) ⊎ (w ≢ fails_after_rename)
write-cases synced = inr (λ e. cc)
write-cases fails_before_rename = inr (λ e. cc)
write-cases fails_after_rename = inl refl

module _ {L S : Type 0} (stored_codec : Codec (StoredSnapshot L S))
    (codec : Codec CoordinationSnapshot) (name_snapshot : Option (LogId L) → ℕ → Str) where
  -- What a successful build at a path leaves on disk.
  build_snapshot_wrote :
      (machine after : GanglionStateMachine L S) (write : DiskWrite) (stored : StoredSnapshot L S)
      → machine.has_path ≡ true
      → build_snapshot stored_codec codec name_snapshot write machine ≡ (ok stored, after)
      → (file : Bytes) × (stored_codec.to_vec stored ≡ some file)
        × (after.disk ≡ some file)
        × (codec.to_vec machine.inner.state ≡ some stored.bytes)
        × (stored.meta.last_log_id ≡ machine.inner.last_applied)
        × (stored.meta.last_membership ≡ machine.inner.last_membership)
  unfolding build_snapshot
  build_snapshot_wrote machine after write stored path built =
      elim (Option-cases (stored_codec.to_vec stored)) [
        | inl failed ↦ absurd (ground arith)
        | inr (file, wrote) ↦ (file, wrote, ground arith, ground arith, ground arith, ground arith)
      ]

  -- A machine reopened from the file after a build that succeeded at a path has the state, last
  -- applied log id and membership of the built machine, and publishes that state. What is
  -- serialized can be read back, and the bytes of a state are never empty.
  pub persistent-build_snapshot :
      RoundTrips stored_codec
      → RoundTrips codec
      → ((s : CoordinationSnapshot) → codec.to_vec s ≡ some [] → ⊥)
      → (empty_membership : S)
      → (machine after : GanglionStateMachine L S) (write : DiskWrite) (stored : StoredSnapshot L S)
      → machine.has_path ≡ true
      → build_snapshot stored_codec codec name_snapshot write machine ≡ (ok stored, after)
      → (restarted : GanglionStateMachine L S) × (persistent stored_codec codec empty_membership
            after.disk
          ≡ ok restarted)
        × (restarted.inner.state ≡ machine.inner.state)
        × (restarted.inner.last_applied ≡ machine.inner.last_applied)
        × (restarted.inner.last_membership ≡ machine.inner.last_membership)
        × (restarted.published ≡ machine.inner.state)
  unfolding persistent
  persistent-build_snapshot rs rc nonempty empty_membership machine after write stored path built =
      let (file, wrote, on_disk, state, applied, members) =
        build_snapshot_wrote machine after write stored path built in
      let loaded = rs stored file wrote in
      let decoded = rc machine.inner.state stored.bytes state in
      let readable : read_state codec stored.bytes ≡ some machine.inner.state =
        read_state_nonempty codec stored.bytes
          (λ e. nonempty machine.inner.state (state ∙ ap some e))
        ∙ decoded in
      (
        record {
          inner = record {
            last_applied = stored.meta.last_log_id;
            last_membership = stored.meta.last_membership;
            state = machine.inner.state;
            snapshot_idx = 0;
            current_snapshot = some stored;
          };
          published = machine.inner.state;
          has_path = true;
          disk = some file;
          snapshot_persists = 0;
          snapshot_loads = 1;
        },
        ground arith,
        refl,
        applied,
        members,
        refl,
      )

  -- A build that fails leaves the committed state, what is published and the snapshot on offer as
  -- they were, and the file is the old one or a whole new snapshot.
  build_snapshot_failed :
      (machine after : GanglionStateMachine L S) (write : DiskWrite) (e : StorageError)
      → build_snapshot stored_codec codec name_snapshot write machine ≡ (err e, after)
      → (after.inner.state ≡ machine.inner.state)
        × (after.inner.last_applied ≡ machine.inner.last_applied)
        × (after.inner.current_snapshot ≡ machine.inner.current_snapshot)
        × (after.published ≡ machine.published)
        × ((after.disk ≡ machine.disk)
            ⊎ ((stored : StoredSnapshot L S) × (file : Bytes) × (stored_codec.to_vec stored
                  ≡ some file)
                × (after.disk ≡ some file)
                × (codec.to_vec machine.inner.state ≡ some stored.bytes)))
  unfolding build_snapshot
  build_snapshot_failed machine after write e failed =
      elim (Option-cases (codec.to_vec machine.inner.state)) [
        | inl unwritten ↦
            (ground arith, ground arith, ground arith, ground arith, inl (ground arith))
        | inr (bytes, encoded) ↦
            let stored = pack_snapshot name_snapshot machine.inner bytes in
            elim (Option-cases (stored_codec.to_vec stored)) [
              | inl unwritten ↦
                  (ground arith, ground arith, ground arith, ground arith, inl (ground arith))
              | inr (file, wrote) ↦ elim (write-cases write) [
                | inl renamed ↦ (
                  ground arith,
                  ground arith,
                  ground arith,
                  ground arith,
                  inr (stored, file, wrote, ground arith, encoded),
                )
                | inr other ↦
                    (ground arith, ground arith, ground arith, ground arith, inl (ground arith))
              ]
            ]
      ]
