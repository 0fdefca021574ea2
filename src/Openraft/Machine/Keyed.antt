-- ===== src/Openraft/Machine/Keyed.antt =====
-- `read_committed_at` of `crates/ganglion-openraft/src/openraft_runtime/storage.rs`: the last applied
-- log id as a key of the committed state. openraft applies entries in the order of their indices,
-- each once, and installs only snapshots that are ahead of what is applied.
use mathlib.Core.Path.{subst}
use ganglion.Prelude.{
  ℕ, suc, ◌≤◌, ◌<◌, Option, some, none, List, [], ◌∷◌, ◌≡◌, refl, sym, ap, ◌∙◌, arith,
}
use ganglion.Core.Model.{Str, CoordinationSnapshot}
use ganglion.Openraft.Command.{LogId, Entry}
use ganglion.Openraft.Machine.{
  Bytes, Codec, DiskWrite, SnapshotMeta, StoredSnapshot, StateMachineInner, GanglionStateMachine,
  apply_payload, apply_entries, apply,
}
use ganglion.Openraft.Machine.Batches.{last_applied-apply_payload}
use ganglion.Openraft.Machine.Snapshots.{build_snapshot, install_snapshot}

module _ {L S R : Type 0} where
  unfoldable read_committed : GanglionStateMachine L S → (CoordinationSnapshot → R) → R
  read_committed machine read = read machine.inner.state

  unfoldable pub read_committed_at :
      GanglionStateMachine L S → (Option (LogId L) → CoordinationSnapshot → R) → R
  read_committed_at machine read = read machine.inner.last_applied machine.inner.state

-- How far a log id is; nothing applied comes before every index.
abbrev rank : {L : Type 0} → Option (LogId L) → ℕ
rank none = 0
rank (some id) = suc id.index

-- The entries come after an id, with indices that go up.
abbrev Follow : {L M : Type 0} → Option (LogId L) → List (Entry L M) → Type 0
Follow last [] = Unit
Follow last (entry ∷ entries) =
    (rank last < rank (some entry.log_id)) × Follow (some entry.log_id) entries

module _ {L M S : Type 0} (stored_membership : Option (LogId L) → M → S)
    (stored_codec : Codec (StoredSnapshot L S)) (codec : Codec CoordinationSnapshot)
    (name_snapshot : Option (LogId L) → ℕ → Str) where
  -- What openraft has a state machine do, between two reads.
  pub data Run (start : GanglionStateMachine L S) : GanglionStateMachine L S → Type 0 where
    here : Run start start
    applied :
        {machine : GanglionStateMachine L S}
        → Run start machine
        → (entries : List (Entry L M)) → Follow machine.inner.last_applied entries
        → Run start (apply stored_membership machine entries).0
    built :
        {machine : GanglionStateMachine L S}
        → Run start machine
        → (write : DiskWrite)
        → Run start (build_snapshot stored_codec codec name_snapshot write machine).1
    installed :
        {machine : GanglionStateMachine L S}
        → Run start machine
        → (write : DiskWrite) (meta : SnapshotMeta L S) (bytes : Bytes)
        → rank machine.inner.last_applied < rank meta.last_log_id
        → Run start (install_snapshot stored_codec codec write machine meta bytes).1

  -- A machine is not behind another, and where it is not ahead it has the same state.
  abbrev Advances : StateMachineInner L S → StateMachineInner L S → Type 0
  Advances a b =
      (rank a.last_applied ≤ rank b.last_applied)
      × (rank a.last_applied ≡ rank b.last_applied → a.state ≡ b.state)

  both : (a b c : StateMachineInner L S) → Advances a b → Advances b c → Advances a c
  both a b c p q = (omega arith, λ e. p.1 (omega arith) ∙ q.1 (omega arith))

  Advances-apply_entries :
      (entries : List (Entry L M)) (inner : StateMachineInner L S)
      → Follow inner.last_applied entries
      → Advances inner (apply_entries stored_membership inner entries).0
  unfolding apply_entries
  Advances-apply_entries [] inner f = (omega arith, λ e. refl)
  Advances-apply_entries (entry ∷ entries) inner f =
      let next = (apply_payload stored_membership inner entry.log_id entry.payload).0 in
      let id = last_applied-apply_payload stored_membership inner entry.log_id entry.payload in
      let later =
        Advances-apply_entries entries next
          (subst (λ (last : Option (LogId L)). Follow last entries) (sym id) f.1) in
      let ahead : rank inner.last_applied < rank next.last_applied = rw id f.0 in
      (omega arith, λ e. absurd (omega arith))

  Advances-build_snapshot :
      (write : DiskWrite) (machine : GanglionStateMachine L S)
      → Advances machine.inner
          (build_snapshot stored_codec codec name_snapshot write machine).1.inner
  unfolding build_snapshot
  Advances-build_snapshot write machine = (ground arith, λ e. ground arith)

  Advances-install_snapshot :
      (write : DiskWrite) (machine : GanglionStateMachine L S) (meta : SnapshotMeta L S)
      (bytes : Bytes)
      → rank machine.inner.last_applied < rank meta.last_log_id
      → Advances machine.inner
          (install_snapshot stored_codec codec write machine meta bytes).1.inner
  unfolding install_snapshot
  Advances-install_snapshot write machine meta bytes h = (ground arith, λ e. ground arith)

  Advances-Run :
      {start machine : GanglionStateMachine L S}
      → Run start machine
      → Advances start.inner machine.inner
  unfolding apply
  Advances-Run here = (omega arith, λ e. refl)
  Advances-Run {start} (applied {machine} run entries f) =
      both start.inner machine.inner (apply_entries stored_membership machine.inner entries).0
        (Advances-Run run) (Advances-apply_entries entries machine.inner f)
  Advances-Run {start} (built {machine} run write) =
      both start.inner machine.inner
        (build_snapshot stored_codec codec name_snapshot write machine).1.inner (Advances-Run run)
        (Advances-build_snapshot write machine)
  Advances-Run {start} (installed {machine} run write meta bytes h) =
      both start.inner machine.inner
        (install_snapshot stored_codec codec write machine meta bytes).1.inner (Advances-Run run)
        (Advances-install_snapshot write machine meta bytes h)

  -- The last applied log id is a key of the committed state: whatever openraft has the machine do
  -- between two reads that pass the same id, both reads see the same state.
  pub read_committed_at-Run :
      {start machine : GanglionStateMachine L S}
      → Run start machine
      → read_committed_at start (λ id state. id) ≡ read_committed_at machine (λ id state. id)
      → read_committed_at start (λ id state. state) ≡ read_committed_at machine (λ id state. state)
  unfolding read_committed_at
  read_committed_at-Run run e = (Advances-Run run).1 (ap rank e)
