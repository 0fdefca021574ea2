-- ===== src/Adapter/Log.antt =====
-- The trait `MetadataLog` of `crates/ganglion-storage/src/lib.rs` as a node uses it, what a node
-- relies on, and the two logs behind it. `&self` with interior mutability is a state passed on.
use ganglion.Prelude.{ℕ, ◌<◌, Option, List, [], ◌∷◌, ◌≡◌, arith, u64_max, last?, Result, ok, err}
use ganglion.Core.Model.{Str, CoordinationSnapshot}
use ganglion.Storage.MemoryLog.{MetadataLogEntry, next_index}
use ganglion.Storage.MemoryLog as Memory
use ganglion.Storage.FileLog.{
  FileMetadataReplayPolicy, MetadataLogError, LineCodec, FileWrite, complete, read_all_entries,
}
use ganglion.Storage.FileLog as File
use ganglion.Storage.FileLog.Sequence.{ReadsWords}
use ganglion.Storage.FileLog.RoundTrip.{
  IsOrdered, ReadsBack, ReadsOrdered, read_all_entries-write_entries, append_entry-refines,
}

pub record MetadataLog (S : Type 0) : Type 0 where
  pub append_entry : S → ℕ → CoordinationSnapshot → Result MetadataLogError MetadataLogEntry × S
  pub latest_entry : S → Result MetadataLogError (Option MetadataLogEntry)
  pub entries : S → Result MetadataLogError (List MetadataLogEntry)
  pub clear : S → Result MetadataLogError (Unit {0}) × S

-- What a node relies on: the latest entry is the last one, a clear that succeeds leaves no entry,
-- and an append that succeeds below the largest index, of a snapshot that the log is for, did what
-- the log in memory does.
pub record IsLog {S : Type 0} (Fits : CoordinationSnapshot → Type 0) (log : MetadataLog S)
    : Type 0 where
  pub latest-entries :
      (s : S) (es : List MetadataLogEntry)
      → log.entries s ≡ ok es
      → log.latest_entry s ≡ ok (last? es)
  pub entries-clear : (s t : S) → log.clear s ≡ (ok tt, t) → log.entries t ≡ ok []
  pub entries-append_entry :
      (s t : S) (es : List MetadataLogEntry) (term : ℕ) (snapshot : CoordinationSnapshot)
      (entry : MetadataLogEntry)
      → log.entries s ≡ ok es
      → next_index es < u64_max
      → Fits snapshot
      → log.append_entry s term snapshot ≡ (ok entry, t)
      → log.entries t ≡ ok (Memory.append_entry es term snapshot).1

-- The log in memory, which never fails.
abbrev pub memory_log : MetadataLog (List MetadataLogEntry)
memory_log = record {
  append_entry = λ es term snapshot.
      let (entry, after) = Memory.append_entry es term snapshot in (ok entry, after);
  latest_entry = λ es. ok (Memory.latest_entry es);
  entries = λ es. ok es;
  clear = λ es. (ok tt, Memory.clear es);
}

-- The file, with how far each write to come will get.
pub record FileState : Type 0 where
  pub file : Option (List Str)
  pub writes : List FileWrite

-- The write at hand; those that nothing is said about complete.
abbrev next_write : List FileWrite → FileWrite × List FileWrite
next_write [] = (complete, [])
next_write (write ∷ writes) = (write, writes)

module _ (codec : LineCodec) (policy : FileMetadataReplayPolicy) where
  -- The log in a file under its replay policy.
  abbrev pub file_log : MetadataLog FileState
  file_log = record {
    append_entry = λ s term snapshot.
        let (write, writes) = next_write s.writes in
        let (result, file) = File.append_entry codec policy write s.file term snapshot in
        (result, record { file = file; writes = writes });
    latest_entry =
        λ s. elim (read_all_entries codec policy s.file) [ err e ↦ err e | ok es ↦ ok (last? es) ];
    entries = λ s. read_all_entries codec policy s.file;
    clear = λ s.
        let (write, writes) = next_write s.writes in
        let (result, file) = File.clear codec write s.file in
        (result, record { file = file; writes = writes });
  }

-- The log in memory is what a node relies on, for all snapshots.
pub memory_log-IsLog : IsLog (λ snapshot. Unit) memory_log
unfolding Memory.append_entry Memory.latest_entry Memory.clear
memory_log-IsLog = record {
  latest-entries = λ s es h. ground arith;
  entries-clear = λ s t h. ground arith;
  entries-append_entry = λ s t es term snapshot entry h b fits k. ground arith;
}

read_all_entries-clear :
    (codec : LineCodec) (policy : FileMetadataReplayPolicy) (write : FileWrite)
    (file after : Option (List Str))
    → ReadsBack codec
    → File.clear codec write file ≡ (ok tt, after)
    → read_all_entries codec policy after ≡ ok []
unfolding File.clear
read_all_entries-clear codec policy write file after back h =
    read_all_entries-write_entries codec back policy file after write [] tt tt (ground arith)

-- The log in a file is what a node relies on, under either replay policy, for the snapshots whose
-- assignments are in key order, if lines that are written for such can be read back, and what is
-- read is such, with indices that are u64.
pub file_log-IsLog :
    (codec : LineCodec) (policy : FileMetadataReplayPolicy)
    → ReadsBack codec
    → ReadsOrdered codec
    → ReadsWords codec
    → IsLog IsOrdered (file_log codec policy)
file_log-IsLog codec policy back ordered words = record {
  latest-entries = λ s es h. ground arith;
  entries-clear = λ s t h.
      read_all_entries-clear codec policy (next_write s.writes).0 s.file t.file back (ground arith);
  entries-append_entry = λ s t es term snapshot entry h b fits k.
      (append_entry-refines codec back words ordered policy (next_write s.writes).0 s.file t.file es
        term snapshot entry h b fits (ground arith)).1;
}
