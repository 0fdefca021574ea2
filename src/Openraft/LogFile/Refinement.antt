-- ===== src/Openraft/LogFile/Refinement.antt =====
-- The file store implements the store in memory: one step of either for one call of openraft.
use ganglion.Prelude.{
  some, Bool, true, false, List, [], ◌∷◌, map, ◌≡◌, refl, arith, ok, err, nat_ord, Option-cases,
  inl, inr,
}
use ganglion.BTreeMap.{insert}
use ganglion.Openraft.Command.{LogId, Entry}
use ganglion.Openraft.Wal.{WalRecord, DurableState, advance_purge, apply_record, rewrite_records}
use ganglion.Openraft.Machine.{Bytes, Codec, DiskWrite}
use ganglion.Openraft.LogFile.{
  DiskAppend, FileRaftLogStore, flush, encode_all, rewrite, insert_entries,
}
use ganglion.Openraft.LogFile as File
use ganglion.Openraft.MemoryLog as Memory
use ganglion.Openraft.MemoryLog.{LogStoreInner}

-- The calls of openraft that change a log store.
pub data LogOperation (V L M : Type 0) : Type 0 where
  voted : V → LogOperation V L M
  appended : List (Entry L M) → LogOperation V L M
  truncated : LogId L → LogOperation V L M
  purged : LogId L → LogOperation V L M

module _ {V L M : Type 0} where
  -- What a file store holds, as the store in memory holds it.
  abbrev pub contents : DurableState V L M → LogStoreInner V L M
  contents state = record {
    vote = state.vote;
    log = state.log;
    last_purged_log_id = state.last_purged_log_id;
  }

  pub run : LogStoreInner V L M → LogOperation V L M → LogStoreInner V L M
  unfolding Memory.save_vote Memory.append Memory.truncate Memory.purge
  run inner (voted v) = Memory.save_vote inner v
  run inner (appended entries) = Memory.append inner entries
  run inner (truncated log_id) = Memory.truncate inner log_id
  run inner (purged log_id) = Memory.purge inner log_id

  -- The records that a call writes.
  abbrev pub records_of : DurableState V L M → LogOperation V L M → List (WalRecord V L M)
  records_of state (voted v) = WalRecord.vote v ∷ []
  records_of state (appended entries) = map WalRecord.entry entries
  records_of state (truncated log_id) = WalRecord.truncate log_id.index ∷ []
  records_of state (purged log_id) = rewrite_records (apply_record state (WalRecord.purge log_id))

module _ {V L M : Type 0} (codec : Codec (WalRecord V L M)) where
  -- Whether the file store reported success, and the store after the call.
  unfoldable pub run_file :
      DiskAppend
      → DiskWrite
      → FileRaftLogStore V L M
      → LogOperation V L M
      → Bool × FileRaftLogStore V L M
  run_file write rename store (voted v) =
      let (result, after) = File.save_vote codec write store v in
      (elim result [ ok _ ↦ true | err _ ↦ false ], after)
  run_file write rename store (appended entries) =
      let (result, after) = File.append codec write store entries in
      (elim result [ ok (some heard) ↦ heard | _ ↦ false ], after)
  run_file write rename store (truncated log_id) =
      let (result, after) = File.truncate codec write store log_id in
      (elim result [ ok _ ↦ true | err _ ↦ false ], after)
  run_file write rename store (purged log_id) =
      let (result, after) = File.purge codec rename store log_id in
      (elim result [ ok _ ↦ true | err _ ↦ false ], after)

  append-insert_entries :
      (inner : LogStoreInner V L M) (entries : List (Entry L M))
      → Memory.append inner entries ≡ record inner { log = insert_entries codec inner.log entries }
  unfolding Memory.append insert_entries
  append-insert_entries inner [] = refl
  append-insert_entries inner (e ∷ es) =
      append-insert_entries (record inner { log = insert e.log_id.index e inner.log }) es

  -- Whatever the disk does, a call that the file store reports as done leaves it with what the
  -- store in memory would hold after the call.
  pub run_file-refines :
      (write : DiskAppend) (rename : DiskWrite) (store : FileRaftLogStore V L M)
      (operation : LogOperation V L M)
      → (run_file write rename store operation).0 ≡ true
      → contents (run_file write rename store operation).1.state
        ≡ run (contents store.state) operation
  unfolding run run_file advance_purge File.save_vote File.append File.truncate File.purge
  run_file-refines write rename store (voted v) h = ground arith
  run_file-refines write rename store (appended []) h = ground arith
  run_file-refines write rename store (appended (e ∷ es)) h =
      elim (Option-cases (encode_all codec (map WalRecord.entry (e ∷ es)))) [
        | inl failed ↦ absurd (ground arith)
        | inr ([], wrote) ↦ absurd (ground arith)
        | inr (line ∷ more, wrote) ↦
            ground (arith, append-insert_entries (contents store.state) (e ∷ es))
      ]
  run_file-refines write rename store (truncated log_id) h = ground arith
  run_file-refines write rename store (purged log_id) h = ground arith

  -- With a disk that works, a writer that has not failed, and records that can be serialized, every
  -- call is reported as done.
  pub run_file_succeeds :
      (store : FileRaftLogStore V L M) (operation : LogOperation V L M) (lines : List Bytes)
      → store.wal.failed ≡ false
      → store.fail_writes ≡ false
      → encode_all codec (records_of store.state operation) ≡ some lines
      → (run_file DiskAppend.flushed DiskWrite.synced store operation).0 ≡ true
  unfolding run_file File.save_vote File.append File.truncate File.purge apply_record
  run_file_succeeds store (voted v) lines healthy writable encoded =
      elim (Option-cases (codec.to_vec (WalRecord.vote v))) [
        | inl failed ↦ absurd (ground arith)
        | inr (line, wrote) ↦ ground arith
      ]
  run_file_succeeds store (appended []) lines healthy writable encoded = ground arith
  run_file_succeeds store (appended (e ∷ es)) [] healthy writable encoded = ground arith
  run_file_succeeds store (appended (e ∷ es)) (line ∷ lines) healthy writable encoded = ground arith
  run_file_succeeds store (truncated log_id) lines healthy writable encoded =
      elim (Option-cases (codec.to_vec (WalRecord.truncate log_id.index))) [
        | inl failed ↦ absurd (ground arith)
        | inr (line, wrote) ↦ ground arith
      ]
  run_file_succeeds store (purged log_id) lines healthy writable encoded = ground arith
