-- ===== src/RaftNode/Restart.antt =====
-- `open_durable_storage` of `crates/ganglion-openraft/src/openraft_runtime/node.rs`, and what a node
-- that stops finds when it opens its directory again. The directory is the lines of its WAL, with
-- whether the last of them has its newline, and the content of its snapshot file.
mod Tests
use ganglion.Prelude.{
  ℕ, Option, some, Bool, true, false, List, [], ◌∷◌, ◌≡◌, refl, sym, ap, ◌∙◌, arith, Result, ok,
  err,
}
use ganglion.Core.Model.{Str, CoordinationSnapshot}
use ganglion.Adapter.Error.{storage}
use ganglion.Openraft.Command.{LogId, Entry, EntryPayload, blank, normal, membership}
use ganglion.Openraft.Wal.{WalRecord, DurableState}
use ganglion.BTreeMap.{values}
use ganglion.Openraft.Machine.{
  Bytes, Codec, RoundTrips, StorageError, DiskWrite, StoredSnapshot, StateMachineInner,
  GanglionStateMachine, apply_payload, apply_entries, apply,
}
use ganglion.Openraft.Machine.Snapshots.{build_snapshot, persistent}
use ganglion.Openraft.Machine.Recovery.{persistent-build_snapshot}
use ganglion.Openraft.LogFile.{LogError, FileRaftLogStore, open_store}
use ganglion.Openraft.LogFile.Replay.{state-open_store}
use ganglion.Openraft.LogFile.Calls.{Call, run_calls, run_calls-IsDurable}
use ganglion.Openraft.LogReader.{Bound, range, file_log_entries}
use ganglion.RaftNode.{RaftNodeError}

module _ {V L M S : Type 0} (wal_codec : Codec (WalRecord V L M)) (is_blank : Bytes → Bool)
    (stored_codec : Codec (StoredSnapshot L S)) (codec : Codec CoordinationSnapshot)
    (empty_membership : S) (log_text : LogError → Str) (machine_text : StorageError → Str) where
  -- The first argument is the result of creating the directory.
  unfoldable pub open_durable_storage :
      Result Str (Unit {0})
      → DiskWrite
      → List Bytes
      → Bool
      → Option Bytes
      → Result RaftNodeError (FileRaftLogStore V L M × GanglionStateMachine L S)
  open_durable_storage (err text) write lines ended disk = err (storage text)
  open_durable_storage (ok _) write lines ended disk =
      elim (open_store wal_codec is_blank write lines ended) [
        | err e ↦ err (storage (log_text e))
        | ok log_store ↦ elim (persistent stored_codec codec empty_membership disk) [
          | err e ↦ err (storage (machine_text e))
          | ok state_machine ↦ ok (log_store, state_machine)
        ]
      ]

module _ {L M S : Type 0} (stored_membership : Option (LogId L) → M → S) where
  -- What the entries after them can tell apart of two machines.
  abbrev pub Agree : StateMachineInner L S → StateMachineInner L S → Type 0
  Agree a b =
      (a.state ≡ b.state)
      × (a.last_applied ≡ b.last_applied)
      × (a.last_membership ≡ b.last_membership)

  apply_payload-Agree :
      (a b : StateMachineInner L S) (id : LogId L) (payload : EntryPayload M)
      → Agree a b
      → Agree
          (apply_payload stored_membership a id payload).0
          (apply_payload stored_membership b id payload).0
  unfolding apply_payload
  apply_payload-Agree a b id blank e = (e.0, refl, e.2)
  apply_payload-Agree a b id (normal command) e = (cc, refl, e.2)
  apply_payload-Agree a b id (membership m) e = (e.0, refl, refl)

  apply_entries-Agree :
      (entries : List (Entry L M)) (a b : StateMachineInner L S)
      → Agree a b
      → Agree
          (apply_entries stored_membership a entries).0
          (apply_entries stored_membership b entries).0
  unfolding apply_entries
  apply_entries-Agree [] a b e = e
  apply_entries-Agree (entry ∷ entries) a b e =
      apply_entries-Agree entries (apply_payload stored_membership a entry.log_id entry.payload).0
        (apply_payload stored_membership b entry.log_id entry.payload).0
        (apply_payload-Agree a b entry.log_id entry.payload e)

module _ {V L M S : Type 0} (wal_codec : Codec (WalRecord V L M)) (is_blank : Bytes → Bool)
    (stored_codec : Codec (StoredSnapshot L S)) (codec : Codec CoordinationSnapshot)
    (empty_membership : S) (log_text : LogError → Str) (machine_text : StorageError → Str)
    (name_snapshot : Option (LogId L) → ℕ → Str)
    (stored_membership : Option (LogId L) → M → S) where
  build_snapshot-Agree :
      (machine built : GanglionStateMachine L S) (stored : StoredSnapshot L S) (write : DiskWrite)
      → build_snapshot stored_codec codec name_snapshot write machine ≡ (ok stored, built)
      → Agree stored_membership built.inner machine.inner
  unfolding build_snapshot
  build_snapshot-Agree machine built stored write b = (ground arith, ground arith, ground arith)

  entries_of :
      (store opened : FileRaftLogStore V L M) (from to : Bound)
      → opened.state ≡ store.state
      → file_log_entries opened from to ≡ file_log_entries store from to
  unfolding file_log_entries
  entries_of store opened from to same =
      ap (λ (s : DurableState V L M). values (range from to s.log)) same

  -- A node that stops after calls on its log that were all reported as done, on a WAL that ended in
  -- a newline when it was first opened, loses nothing: opened again on its directory, the log gives
  -- the entries that it gave, in every range, and the state machine starts from the last snapshot
  -- that was built; given the entries that were applied since, it has the committed state, last
  -- applied log id and membership that it had. The WAL opens, what is serialized can be read back,
  -- a record's line is not blank, and the bytes of a state are never empty.
  pub open_durable_storage-recovers :
      RoundTrips wal_codec
      → ((r : WalRecord V L M) (line : Bytes)
          → wal_codec.to_vec r ≡ some line
          → is_blank line ≡ false)
      → RoundTrips stored_codec
      → RoundTrips codec
      → ((s : CoordinationSnapshot) → codec.to_vec s ≡ some [] → ⊥)
      → (compact : DiskWrite) (lines : List Bytes) (first opened : FileRaftLogStore V L M)
        (calls : List (Call V L M)) (machine built : GanglionStateMachine L S)
        (stored : StoredSnapshot L S) (write rewrite : DiskWrite) (since : List (Entry L M))
      → open_store wal_codec is_blank compact lines true ≡ ok first
      → (run_calls wal_codec first calls).0 ≡ true
      → machine.has_path ≡ true
      → build_snapshot stored_codec codec name_snapshot write machine ≡ (ok stored, built)
      → let store = (run_calls wal_codec first calls).1 in
        open_store wal_codec is_blank rewrite store.wal.lines store.wal.ended ≡ ok opened
        → let running = (apply stored_membership built since).0 in
          (restarted : GanglionStateMachine L S) × (open_durable_storage wal_codec is_blank
              stored_codec codec empty_membership log_text machine_text
              (ok tt)
              rewrite
              store.wal.lines
              store.wal.ended
              running.disk
            ≡ ok (opened, restarted))
          × ((from to : Bound) → file_log_entries opened from to ≡ file_log_entries store from to)
          × Agree stored_membership (apply stored_membership restarted since).0.inner running.inner
  unfolding open_durable_storage apply
  open_durable_storage-recovers rl visible rs rc n compact lines first opened calls machine built
        stored write rewrite since f c p b o =
      let store = (run_calls wal_codec first calls).1 in
      let (durable, ended) =
        run_calls-IsDurable wal_codec is_blank rl visible compact lines first calls f c in
      let (restarted, loads, state, applied, members, published) =
        persistent-build_snapshot stored_codec codec name_snapshot rs rc n empty_membership machine
          built write stored p b in
      let kept = build_snapshot-Agree machine built stored write b in
      let same =
        state-open_store wal_codec is_blank rewrite store.wal.ended store opened durable o in
      (
        restarted,
        ground arith,
        λ from to. entries_of store opened from to same,
        apply_entries-Agree stored_membership since restarted.inner built.inner
            (state ∙ sym kept.0, applied ∙ sym kept.1, members ∙ sym kept.2),
      )
