-- ===== src/Openraft/LogFile/Tests.antt =====
-- The results of the log store at sample data.
use ganglion.Prelude.{ℕ, some, none, true, false, List, [], ◌∷◌, map, ◌≡◌, refl, ok, err}
use ganglion.Openraft.Command.{LogId, Entry, blank, membership}
use ganglion.Openraft.Wal.{
  WalRecord, DurableState, empty_state, apply_record, replay, rewrite_records,
}
use ganglion.Openraft.Wal.Compaction.{IsIndexed}
use ganglion.Openraft.Machine.{Bytes, synced}
use ganglion.Openraft.LogFile.{
  read_logs, encode_all, flushed, WalWriter, flush, FileRaftLogStore, save_vote, append, truncate,
  purge, open_store, read_lines, rewrite,
}
use ganglion.Openraft.LogFile.Queue.{
  WalJob, write_job, replace_job, run_batches, one_by_one, concat, working,
}
use ganglion.Openraft.LogFile.Batching.{seen, run_batches-one_by_one}
use ganglion.Openraft.LogFile.Replay.{IsDurable}
use ganglion.Openraft.LogFile.Durable.{append-IsDurable, open_store-IsDurable}
use ganglion.Openraft.LogFile.Unended.{save_vote-open_store}
use ganglion.Openraft.LogFile.Refinement.{
  contents, run, run_file, appended, records_of, run_file-refines, run_file_succeeds,
}
use ganglion.Openraft.Samples.{wal_codec, wal_codec-RoundTrips, wal_codec_visible, is_blank}

abbrev at_index : ℕ → LogId ℕ
at_index index = record { leader_id = 1; index = index }

abbrev blank_at : ℕ → Entry ℕ ℕ
blank_at index = record { log_id = at_index index; payload = blank }

abbrev held : DurableState ℕ ℕ ℕ
held = record {
  vote = some 1;
  log = (5, blank_at 5) ∷ (6, blank_at 6) ∷ [];
  last_purged_log_id = none;
}

held-IsIndexed : IsIndexed held
held-IsIndexed = record { sorted = ((refl, tt), (tt, tt)); keyed = (refl, (refl, tt)) }

abbrev file : List Bytes
file = (1 ∷ []) ∷ [] ∷ (1 ∷ 5 ∷ 0 ∷ 0 ∷ []) ∷ (1 ∷ 6 ∷ 0 ∷ 0 ∷ []) ∷ []

abbrev writer : WalWriter
writer = record { lines = file; ended = true; failed = false; detached = false; fsyncs = 0 }

abbrev broken : WalWriter
broken = record writer { failed = true }

abbrev store : FileRaftLogStore ℕ ℕ ℕ
store = record { state = held; wal = writer; fail_writes = false }

flush_accepts : (flush flushed writer ((2 ∷ []) ∷ [])).0 ≡ true
unfolding flush
flush_accepts = refl

file_read : read_lines wal_codec is_blank empty_state 0 file ≡ some (held, 3)
unfolding read_lines apply_record ganglion.BTreeMap.insert
file_read = refl

opens : open_store wal_codec is_blank synced file true ≡ ok store
unfolding open_store apply_record ganglion.BTreeMap.insert
opens = refl

open_store-IsDurable_example : IsDurable wal_codec is_blank store
open_store-IsDurable_example =
    open_store-IsDurable wal_codec is_blank wal_codec-RoundTrips wal_codec_visible synced file true
      store opens

store-IsDurable : IsDurable wal_codec is_blank store
store-IsDurable = record {
  records = 3;
  replays = file_read;
  healthy = refl;
  attached = refl;
  indexed = held-IsIndexed;
}

abbrev voted : FileRaftLogStore ℕ ℕ ℕ
voted = (save_vote wal_codec flushed store 2).1

votes : save_vote wal_codec flushed store 2 ≡ (ok tt, voted)
unfolding save_vote
votes = refl

-- A file whose last line, an entry, lacks its newline.
abbrev unended_file : List Bytes
unended_file = (1 ∷ []) ∷ [] ∷ (1 ∷ 5 ∷ 0 ∷ 0 ∷ []) ∷ (1 ∷ 6 ∷ 3 ∷ 0 ∷ 0 ∷ []) ∷ []

abbrev unended : FileRaftLogStore ℕ ℕ ℕ
unended = record {
  state = record held {
    log = (5, blank_at 5) ∷ (6, record { log_id = at_index 6; payload = membership 3 }) ∷ [];
  };
  wal = record writer { lines = unended_file; ended = false };
  fail_writes = false;
}

opens_unended : open_store wal_codec is_blank synced unended_file false ≡ ok unended
unfolding open_store apply_record ganglion.BTreeMap.insert
opens_unended = refl

abbrev garbled : FileRaftLogStore ℕ ℕ ℕ
garbled = (save_vote wal_codec flushed unended 2).1

votes_unended : save_vote wal_codec flushed unended 2 ≡ (ok tt, garbled)
unfolding save_vote
votes_unended = refl

save_vote-open_store_example :
    open_store wal_codec is_blank synced garbled.wal.lines true ≡ err read_logs
save_vote-open_store_example =
    save_vote-open_store wal_codec is_blank synced synced flushed
      ((1 ∷ []) ∷ [] ∷ (1 ∷ 5 ∷ 0 ∷ 0 ∷ []) ∷ []) (1 ∷ 6 ∷ 3 ∷ 0 ∷ 0 ∷ []) (2 ∷ []) true unended
      garbled 2 refl refl refl opens_unended refl votes_unended

abbrev cut : FileRaftLogStore ℕ ℕ ℕ
cut = (truncate wal_codec flushed store (at_index 6)).1

cuts : truncate wal_codec flushed store (at_index 6) ≡ (ok tt, cut)
unfolding truncate
cuts = refl

abbrev grown : FileRaftLogStore ℕ ℕ ℕ
grown = (append wal_codec flushed store (blank_at 7 ∷ [])).1

grows : append wal_codec flushed store (blank_at 7 ∷ []) ≡ (ok (some true), grown)
unfolding append
grows = refl

append-IsDurable_example :
    (grown.state ≡ replay held (map WalRecord.entry (blank_at 7 ∷ [])))
    × (IsDurable wal_codec is_blank grown)
    × (grown.wal.ended ≡ true)
append-IsDurable_example =
    append-IsDurable wal_codec is_blank wal_codec-RoundTrips wal_codec_visible flushed store grown
      (blank_at 7 ∷ []) store-IsDurable refl grows

abbrev purged : FileRaftLogStore ℕ ℕ ℕ
purged = (purge wal_codec synced store (at_index 5)).1

purges : purge wal_codec synced store (at_index 5) ≡ (ok tt, purged)
unfolding purge rewrite rewrite_records ganglion.BTreeMap.split_off
purges = refl

run_file_accepts : (run_file wal_codec flushed synced store (appended (blank_at 7 ∷ []))).0 ≡ true
unfolding run_file append
run_file_accepts = refl

run_file-refines_example :
    contents (run_file wal_codec flushed synced store (appended (blank_at 7 ∷ []))).1.state
    ≡ run (contents held) (appended (blank_at 7 ∷ []))
run_file-refines_example =
    run_file-refines wal_codec flushed synced store (appended (blank_at 7 ∷ [])) run_file_accepts

entry_encodes :
    encode_all wal_codec (records_of held (appended (blank_at 7 ∷ [])))
    ≡ some ((1 ∷ 7 ∷ 0 ∷ 0 ∷ []) ∷ [])
unfolding encode_all
entry_encodes = refl

run_file_succeeds_example :
    (run_file wal_codec flushed synced store (appended (blank_at 7 ∷ []))).0 ≡ true
run_file_succeeds_example =
    run_file_succeeds wal_codec store (appended (blank_at 7 ∷ [])) ((1 ∷ 7 ∷ 0 ∷ 0 ∷ []) ∷ []) refl
      refl entry_encodes

-- A writer on a file of one line, and a queue with a rewrite.
abbrev queue_writer : WalWriter
queue_writer = record {
  lines = (1 ∷ []) ∷ [];
  ended = false;
  failed = false;
  detached = false;
  fsyncs = 0;
}

abbrev queue : List (List WalJob)
queue =
    (write_job ((2 ∷ []) ∷ []) 7 ∷ write_job [] 8 ∷ [])
    ∷ (write_job ((3 ∷ []) ∷ []) 9 ∷ replace_job ((4 ∷ []) ∷ []) ∷ write_job ((5 ∷ []) ∷ []) 6 ∷ [])
    ∷ []

run_batches-one_by_one_example :
    seen (run_batches working queue_writer queue)
    ≡ seen (run_batches working queue_writer (one_by_one (concat queue)))
run_batches-one_by_one_example = run_batches-one_by_one queue queue_writer

abbrev failed_writer : WalWriter
failed_writer = record queue_writer { failed = true }
