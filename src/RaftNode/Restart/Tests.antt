-- ===== src/RaftNode/Restart/Tests.antt =====
-- A restart at sample data: a store that was opened from a file, and a machine that built a snapshot
-- and then applied a command.
use ganglion.Prelude.{ℕ, false, true, Option, some, none, [], ◌∷◌, List, ◌≡◌, refl, ok}
use ganglion.Core.Model.{Str, default_snapshot}
use ganglion.Openraft.Command.{LogId, Entry, membership, blank}
use ganglion.Openraft.Wal.{apply_record}
use ganglion.Openraft.Machine.{
  Bytes, StorageError, synced, StoredSnapshot, GanglionStateMachine, apply,
}
use ganglion.Openraft.Machine.Snapshots.{pack_snapshot, build_snapshot}
use ganglion.Openraft.LogFile.{
  flushed, LogError, FileRaftLogStore, save_vote, append, truncate, open_store,
}
use ganglion.Openraft.LogFile.Refinement.{voted, truncated, appended, run_file}
use ganglion.Openraft.LogFile.Calls.{Call, run_calls}
use ganglion.Openraft.LogReader.{Bound, file_log_entries}
use ganglion.Openraft.Samples.{
  state_codec, state_codec-RoundTrips, state_codec_nonempty, stored_codec, stored_codec-RoundTrips,
  wal_codec, wal_codec-RoundTrips, wal_codec_visible, is_blank,
}
use ganglion.RaftNode.Restart.{Agree, open_durable_storage, open_durable_storage-recovers}

abbrev at_index : ℕ → LogId ℕ
at_index index = record { leader_id = 1; index = index }

abbrev members_of : Option (LogId ℕ) → ℕ → ℕ
members_of at members = members

abbrev no_name : Option (LogId ℕ) → ℕ → Str
no_name at idx = []

abbrev log_text : LogError → Str
log_text e = []

abbrev machine_text : StorageError → Str
machine_text e = []

abbrev machine : GanglionStateMachine ℕ ℕ
machine = record {
  inner = record {
    last_applied = some (at_index 5);
    last_membership = 2;
    state = record default_snapshot { generation = 4 };
    snapshot_idx = 0;
    current_snapshot = none;
  };
  published = record default_snapshot { generation = 4 };
  has_path = true;
  disk = none;
  snapshot_persists = 0;
  snapshot_loads = 0;
}

abbrev stored : StoredSnapshot ℕ ℕ
stored = pack_snapshot no_name machine.inner (4 ∷ [])

abbrev built : GanglionStateMachine ℕ ℕ
built = (build_snapshot stored_codec state_codec no_name synced machine).1

builds : build_snapshot stored_codec state_codec no_name synced machine ≡ (ok stored, built)
unfolding build_snapshot
builds = refl

abbrev joined : Entry ℕ ℕ
joined = record { log_id = at_index 6; payload = membership 3 }

abbrev file : List Bytes
file = (1 ∷ []) ∷ [] ∷ (1 ∷ 5 ∷ 0 ∷ 0 ∷ []) ∷ (1 ∷ 6 ∷ 3 ∷ 0 ∷ 0 ∷ []) ∷ []

abbrev store : FileRaftLogStore ℕ ℕ ℕ
store = record {
  state = record {
    vote = some 1;
    log = (5, record { log_id = at_index 5; payload = blank }) ∷ (6, joined) ∷ [];
    last_purged_log_id = none;
  };
  wal = record { lines = file; ended = true; failed = false; detached = false; fsyncs = 0 };
  fail_writes = false;
}

opens : open_store wal_codec is_blank synced file true ≡ ok store
unfolding open_store apply_record ganglion.BTreeMap.insert
opens = refl

-- A vote is saved, and the entry after 5 is cut and appended again.
abbrev calls : List (Call ℕ ℕ ℕ)
calls =
    record { write = flushed; rename = synced; operation = voted 2 }
    ∷ record { write = flushed; rename = synced; operation = truncated (at_index 6) }
    ∷ record { write = flushed; rename = synced; operation = appended (joined ∷ []) }
    ∷ []

abbrev voted_store : FileRaftLogStore ℕ ℕ ℕ
voted_store = (run_calls wal_codec store calls).1

accepts : (run_calls wal_codec store calls).0 ≡ true
unfolding run_calls run_file save_vote truncate append
accepts = refl

abbrev reopened : FileRaftLogStore ℕ ℕ ℕ
reopened = record {
  state = record {
    vote = some 2;
    log = (5, record { log_id = at_index 5; payload = blank }) ∷ (6, joined) ∷ [];
    last_purged_log_id = none;
  };
  wal = record {
    lines = voted_store.wal.lines;
    ended = true;
    failed = false;
    detached = false;
    fsyncs = 0;
  };
  fail_writes = false;
}

reopens :
    open_store wal_codec is_blank synced voted_store.wal.lines voted_store.wal.ended ≡ ok reopened
unfolding open_store apply_record ganglion.BTreeMap.insert ganglion.BTreeMap.below run_calls
    run_file save_vote truncate append
reopens = refl

-- The running node applied a change of membership after its last snapshot.
abbrev running : GanglionStateMachine ℕ ℕ
running = (apply members_of built (joined ∷ [])).0

open_durable_storage-recovers_example :
    (restarted : GanglionStateMachine ℕ ℕ) × (open_durable_storage wal_codec is_blank stored_codec
        state_codec 0 log_text machine_text
        (ok tt)
        synced
        voted_store.wal.lines
        voted_store.wal.ended
        running.disk
      ≡ ok (reopened, restarted))
    × ((from to : Bound) → file_log_entries reopened from to ≡ file_log_entries voted_store from to)
    × Agree members_of (apply members_of restarted (joined ∷ [])).0.inner running.inner
open_durable_storage-recovers_example =
    open_durable_storage-recovers wal_codec is_blank stored_codec state_codec 0 log_text
      machine_text no_name members_of wal_codec-RoundTrips wal_codec_visible stored_codec-RoundTrips
      state_codec-RoundTrips state_codec_nonempty synced file store reopened calls machine built
      stored synced synced (joined ∷ []) opens accepts refl builds reopens
