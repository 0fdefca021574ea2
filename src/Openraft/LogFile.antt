-- ===== src/Openraft/LogFile.antt =====
-- `FileRaftLogStore` of `crates/ganglion-openraft/src/openraft_runtime/durable.rs`: the WAL file,
-- its writer, and the log operations. The file is its lines, of which the last may lack its newline,
-- so that what is written next goes on in that line; `serde_json` is a codec of records,
-- and `is_blank` is the test `line.trim().is_empty()`. What the disk does is chosen by the
-- environment. The operations give the writer one job at a time; Queue has its batches.
pub mod Queue
pub mod Batching
pub mod Writer
pub mod Replay
mod Logged
pub mod Durable
pub mod Refinement
pub mod Calls
pub mod Unended
mod Tests
use ganglion.Prelude.{
  ℕ, ◌+◌, Option, some, none, Bool, true, false, List, [], ◌∷◌, ◌++◌, map, ltb, if◌then◌else◌,
  wrapping_add, nat_ord, length, Result, ok, err,
}
use ganglion.BTreeMap.{BTreeMap, insert, below, split_off, is_some}
use ganglion.Openraft.Command.{LogId, Entry}
use ganglion.Openraft.Wal.{
  WalRecord, DurableState, empty_state, advance_purge, apply_record, rewrite_records,
}
use ganglion.Openraft.Machine.{
  Bytes, Codec, DiskWrite, synced, fails_before_rename, fails_after_rename,
}

-- How an append to the open file ends: written and synced, or failed after some lines of it, with
-- or without the newline of the last.
pub data DiskAppend : Type 0 where
  flushed : DiskAppend
  torn : List Bytes → Bool → DiskAppend

pub data LogError : Type 0 where
  read_logs write_logs write_vote : LogError

-- The writer thread and the file at `path`. `ended` tells that its last line, if any, has its
-- newline, `detached` that the path was renamed over while the writer kept the old file open.
pub record WalWriter : Type 0 where
  pub lines : List Bytes
  pub ended : Bool
  pub failed : Bool
  pub detached : Bool
  pub fsyncs : ℕ

-- Lines behind a last line without its newline.
pub join_last : List Bytes → Bytes → List Bytes → List Bytes
join_last [] line more = line ∷ more
join_last (last ∷ []) line more = (last ++ line) ∷ more
join_last (first ∷ second ∷ rest) line more = first ∷ join_last (second ∷ rest) line more

-- The file at `path` after some lines are written, and whether its last line has its newline.
unfoldable pub added : WalWriter → List Bytes → List Bytes
unfolding join_last
added wal [] = wal.lines
added wal (line ∷ more) =
    if wal.detached
    then wal.lines
    else if wal.ended
    then wal.lines ++ line ∷ more
    else join_last wal.lines line more

unfoldable pub ended_after : WalWriter → List Bytes → Bool → Bool
ended_after wal [] ended = wal.ended
ended_after wal (line ∷ more) ended = if wal.detached then wal.ended else ended

-- `WalWriter::flush` for a job that someone waits for; the flag is what it reports.
unfoldable pub flush : DiskAppend → WalWriter → List Bytes → Bool × WalWriter
unfolding added ended_after
flush write wal [] = (if wal.failed then false else true, wal)
flush write wal (line ∷ more) = if wal.failed then (false, wal) else elim write [
  | flushed ↦ (
    true,
    record wal {
      lines = added wal (line ∷ more);
      ended = ended_after wal (line ∷ more) true;
      fsyncs = wal.fsyncs + 1;
    },
  )
  | torn part ended ↦ (
    false,
    record wal { lines = added wal part; ended = ended_after wal part ended; failed = true },
  )
]

pub record FileRaftLogStore (V L M : Type 0) : Type 0 where
  pub state : DurableState V L M
  pub wal : WalWriter
  pub fail_writes : Bool

abbrev pub compact_dead_record_threshold : ℕ
compact_dead_record_threshold = 64

abbrev pub count_some {ℓ} : {A : Type ℓ} → Option A → ℕ
count_some none = 0
count_some (some _) = 1

module _ {V L M : Type 0} (codec : Codec (WalRecord V L M)) where
  -- The lines for some records, or a serialization error.
  pub encode_all : List (WalRecord V L M) → Option (List Bytes)
  encode_all [] = some []
  encode_all (r ∷ rs) = elim (codec.to_vec r) [
    | none ↦ none
    | some line ↦ elim (encode_all rs) [ none ↦ none | some lines ↦ some (line ∷ lines) ]
  ]

  -- `rewrite`: whether it succeeded, and the file after it.
  pub rewrite : DiskWrite → Bool → WalWriter → DurableState V L M → Bool × WalWriter
  unfolding encode_all
  rewrite write inject_failure wal state = elim (encode_all (rewrite_records state)) [
    | none ↦ (false, wal)
    | some lines ↦ if inject_failure then (false, wal) else elim write [
      | synced ↦ (
        true,
        record wal { lines = lines; ended = true; detached = false; fsyncs = wal.fsyncs + 2 },
      )
      | fails_before_rename ↦ (false, wal)
      | fails_after_rename ↦ (false, record wal { lines = lines; ended = true; detached = true })
    ]
  ]

  -- `save_vote`
  unfoldable pub save_vote :
      DiskAppend → FileRaftLogStore V L M → V → Result LogError (Unit {0}) × FileRaftLogStore V L M
  unfolding flush
  save_vote write store vote =
      if store.fail_writes
      then (err write_vote, store)
      else elim (codec.to_vec (WalRecord.vote vote)) [
        | none ↦ (err write_logs, store)
        | some line ↦
            let (done, wal) = flush write store.wal (line ∷ []) in
            if done
            then (
              ok tt,
              record store { wal = wal; state = record store.state { vote = some vote } },
            )
            else (err write_vote, record store { wal = wal })
      ]

  pub insert_entries : BTreeMap ℕ (Entry L M) → List (Entry L M) → BTreeMap ℕ (Entry L M)
  insert_entries log [] = log
  insert_entries log (e ∷ es) = insert_entries (insert e.log_id.index e log) es

  -- `append`: the result of the call, and what the flush callback hears, if it is called.
  unfoldable pub append :
      DiskAppend
      → FileRaftLogStore V L M
      → List (Entry L M)
      → Result LogError (Option Bool) × FileRaftLogStore V L M
  unfolding flush insert_entries encode_all
  append write store entries =
      if store.fail_writes
      then (err write_logs, store)
      else elim (encode_all (map WalRecord.entry entries)) [
        | none ↦ (err write_logs, store)
        | some lines ↦ elim lines [
          | [] ↦ (ok (some true), store)
          | line ∷ more ↦
              let (done, wal) = flush write store.wal (line ∷ more) in
              (
                ok (some done),
                record store {
                  wal = wal;
                  state = record store.state { log = insert_entries store.state.log entries };
                },
              )
        ]
      ]

  -- `truncate`
  unfoldable pub truncate :
      DiskAppend
      → FileRaftLogStore V L M
      → LogId L
      → Result LogError (Unit {0}) × FileRaftLogStore V L M
  unfolding flush
  truncate write store log_id = elim (codec.to_vec (WalRecord.truncate log_id.index)) [
    | none ↦ (err write_logs, store)
    | some line ↦
        let (done, wal) = flush write store.wal (line ∷ []) in
        if done
        then (
          ok tt,
          record store {
            wal = wal;
            state = record store.state { log = below log_id.index store.state.log };
          },
        )
        else (err write_logs, record store { wal = wal })
  ]

  -- `purge`: the state moves first, then the file is compacted.
  pub purge :
      DiskWrite
      → FileRaftLogStore V L M
      → LogId L
      → Result LogError (Unit {0}) × FileRaftLogStore V L M
  unfolding flush rewrite advance_purge
  purge write store log_id =
      let state : DurableState V L M = record store.state {
        last_purged_log_id = advance_purge store.state.last_purged_log_id log_id;
        log = split_off (wrapping_add log_id.index 1) store.state.log;
      } in
      let (done, drained) = flush flushed store.wal [] in
      if done
      then (let (written, wal) = rewrite write store.fail_writes drained state in
          (if written then ok tt else err write_logs, record store { state = state; wal = wal }))
      else (err write_logs, record store { state = state; wal = drained })

  -- The replay loop of `open`: the state and the number of records, or a malformed line.
  pub read_lines :
      (Bytes → Bool) → DurableState V L M → ℕ → List Bytes → Option (DurableState V L M × ℕ)
  unfolding apply_record
  read_lines is_blank state n [] = some (state, n)
  read_lines is_blank state n (line ∷ rest) = elim (is_blank line) [
    | true ↦ read_lines is_blank state n rest
    | false ↦ elim (codec.from_slice line) [
      | none ↦ none
      | some r ↦ read_lines is_blank (apply_record state r) (n + 1) rest
    ]
  ]

  -- `open` on a file with the given lines, none if it is not there, and whether the last of them
  -- has its newline.
  unfoldable pub open_store :
      (Bytes → Bool) → DiskWrite → List Bytes → Bool → Result LogError (FileRaftLogStore V L M)
  unfolding read_lines rewrite
  open_store is_blank write lines ended = elim (read_lines is_blank empty_state 0 lines) [
    | none ↦ err read_logs
    | some (state, replayed_records) ↦
        let live_records =
          length state.log + count_some state.vote + count_some state.last_purged_log_id in
        let opened : WalWriter = record {
          lines = lines;
          ended = ended;
          failed = false;
          detached = false;
          fsyncs = 0;
        } in
        if ltb (live_records + compact_dead_record_threshold) replayed_records
        then (let (written, wal) = rewrite write false opened state in
            if written
            then ok (record { state = state; wal = wal; fail_writes = false })
            else err write_logs)
        else ok (record { state = state; wal = opened; fail_writes = false })
  ]
