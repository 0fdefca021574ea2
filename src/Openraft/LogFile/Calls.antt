-- ===== src/Openraft/LogFile/Calls.antt =====
-- A store over a run of calls that are all reported as done.
use ganglion.Prelude.{Bool, true, false, List, [], ◌∷◌, ◌≡◌, ◌&&◌, some, arith, ok}
use ganglion.Openraft.Wal.{WalRecord}
use ganglion.Openraft.Machine.{Bytes, Codec, RoundTrips, DiskWrite}
use ganglion.Openraft.LogFile.{
  DiskAppend, FileRaftLogStore, save_vote, append, truncate, purge, open_store,
}
use ganglion.Openraft.LogFile.Replay.{IsDurable}
use ganglion.Openraft.LogFile.Durable.{
  save_vote-IsDurable, append-IsDurable, truncate-IsDurable, purge-IsDurable, open_store-IsDurable,
  open_store_ended,
}
use ganglion.Openraft.LogFile.Refinement.{
  LogOperation, voted, appended, truncated, purged, run_file,
}

-- A call, with what the disk does to it.
pub record Call (V L M : Type 0) : Type 0 where
  pub write : DiskAppend
  pub rename : DiskWrite
  pub operation : LogOperation V L M

module _ {V L M : Type 0} (codec : Codec (WalRecord V L M)) where
  -- Whether every call was reported as done, and the store after them.
  unfoldable pub run_calls :
      FileRaftLogStore V L M → List (Call V L M) → Bool × FileRaftLogStore V L M
  unfolding run_file
  run_calls store [] = (true, store)
  run_calls store (call ∷ calls) =
      let (done, after) = run_file codec call.write call.rename store call.operation in
      let (others, last) = run_calls after calls in (done && others, last)

module _ {V L M : Type 0} (codec : Codec (WalRecord V L M)) (is_blank : Bytes → Bool)
    (round : RoundTrips codec)
    (visible : (r : WalRecord V L M) (line : Bytes)
      → codec.to_vec r ≡ some line
      → is_blank line ≡ false) where
  -- A durable store whose file can be written to behind its last line.
  abbrev pub IsSound : FileRaftLogStore V L M → Type 0
  IsSound store = (IsDurable codec is_blank store) × (store.wal.ended ≡ true)

  run_file-IsSound :
      (write : DiskAppend) (rename : DiskWrite) (store : FileRaftLogStore V L M)
      (operation : LogOperation V L M)
      → IsSound store
      → (run_file codec write rename store operation).0 ≡ true
      → IsSound (run_file codec write rename store operation).1
  unfolding run_file
  run_file-IsSound write rename store (voted v) (d, n) h =
      let (state, durable, ended) =
        save_vote-IsDurable codec is_blank round visible write store
          (save_vote codec write store v).1 v d n (ground arith) in
      (durable, ended)
  run_file-IsSound write rename store (appended entries) (d, n) h =
      let (state, durable, ended) =
        append-IsDurable codec is_blank round visible write store
          (append codec write store entries).1 entries d n (ground arith) in
      (durable, ended)
  run_file-IsSound write rename store (truncated log_id) (d, n) h =
      let (state, durable, ended) =
        truncate-IsDurable codec is_blank round visible write store
          (truncate codec write store log_id).1 log_id d n (ground arith) in
      (durable, ended)
  run_file-IsSound write rename store (purged log_id) (d, n) h =
      let (state, durable, ended) =
        purge-IsDurable codec is_blank round visible rename store
          (purge codec rename store log_id).1 log_id d (ground arith) in
      (durable, ended)

  run_calls-IsSound :
      (calls : List (Call V L M)) (store : FileRaftLogStore V L M)
      → IsSound store
      → (run_calls codec store calls).0 ≡ true
      → IsSound (run_calls codec store calls).1
  unfolding run_calls
  run_calls-IsSound [] store s h = s
  run_calls-IsSound (call ∷ calls) store s h =
      run_calls-IsSound calls (run_file codec call.write call.rename store call.operation).1
        (run_file-IsSound call.write call.rename store call.operation s (ground arith))
        (ground arith)

  -- A store that was opened on a file that ends in a newline, and whose calls were all reported as
  -- done, is durable.
  pub run_calls-IsDurable :
      (compact : DiskWrite) (lines : List Bytes) (first : FileRaftLogStore V L M)
      (calls : List (Call V L M))
      → open_store codec is_blank compact lines true ≡ ok first
      → (run_calls codec first calls).0 ≡ true
      → IsSound (run_calls codec first calls).1
  run_calls-IsDurable compact lines first calls o h =
      run_calls-IsSound calls first
        (
          open_store-IsDurable codec is_blank round visible compact lines true first o,
          open_store_ended codec is_blank round visible compact lines first o,
        )
        h
