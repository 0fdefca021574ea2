-- ===== src/Openraft/LogFile/Queue.antt =====
-- `WalWriter::run` of `crates/ganglion-openraft/src/openraft_runtime/durable.rs`: the jobs that are
-- queued together, and the one sync that they share. A waiter is a number.
use ganglion.Prelude.{ℕ, Bool, true, false, List, [], ◌∷◌, ◌++◌, ◌≡◌, not, if◌then◌else◌, arith}
use ganglion.Openraft.Machine.{Bytes}
use ganglion.Openraft.LogFile.{DiskAppend, flushed, WalWriter, added, ended_after, flush}

pub data WalJob : Type 0 where
  write_job : List Bytes → ℕ → WalJob
  -- The file that a rewrite left at the path.
  replace_job : List Bytes → WalJob

-- What the waiters hear, in order.
abbrev pub Replies : Type 0
Replies = List (ℕ × Bool)

abbrev pub replies_to : Bool → List ℕ → Replies
replies_to done [] = []
replies_to done (id ∷ ids) = (id, done) ∷ replies_to done ids

-- How an append ends, by the writer's state, which counts the syncs, and the bytes.
abbrev pub Disk : Type 0
Disk = WalWriter → List Bytes → DiskAppend

-- `flush`, with the waiters.
unfoldable pub flush_pending : Disk → WalWriter → List Bytes → List ℕ → Replies × WalWriter
unfolding flush
flush_pending disk wal bytes [] = ([], wal)
flush_pending disk wal bytes (id ∷ ids) =
    let (done, after) = flush (disk wal bytes) wal bytes in (replies_to done (id ∷ ids), after)

abbrev pub replaced : WalWriter → List Bytes → WalWriter
replaced wal lines = record wal { lines = lines; ended = true; detached = false }

-- The `for` loop over a batch and the flush after it, from the bytes and waiters so far.
unfoldable pub run_jobs : Disk → WalWriter → List Bytes → List ℕ → List WalJob → Replies × WalWriter
unfolding flush_pending
run_jobs disk wal bytes waiting [] = flush_pending disk wal bytes waiting
run_jobs disk wal bytes waiting (write_job more id ∷ jobs) =
    run_jobs disk wal (bytes ++ more) (waiting ++ id ∷ []) jobs
run_jobs disk wal bytes waiting (replace_job lines ∷ jobs) =
    let (replies, after) = flush_pending disk wal bytes waiting in
    let (others, last) = run_jobs disk (replaced after lines) [] [] jobs in
    (replies ++ others, last)

-- `run`: the batches in which the queue is taken, one after the other.
unfoldable pub run_batches : Disk → WalWriter → List (List WalJob) → Replies × WalWriter
unfolding run_jobs
run_batches disk wal [] = ([], wal)
run_batches disk wal (batch ∷ batches) =
    let (replies, after) = run_jobs disk wal [] [] batch in
    let (others, last) = run_batches disk after batches in (replies ++ others, last)

-- Each job by itself.
abbrev pub one_by_one : List WalJob → List (List WalJob)
one_by_one [] = []
one_by_one (job ∷ jobs) = (job ∷ []) ∷ one_by_one jobs

abbrev pub concat : List (List WalJob) → List WalJob
concat [] = []
concat (batch ∷ batches) = batch ++ concat batches

-- All of a writer but the number of its syncs.
abbrev pub unsynced : WalWriter → WalWriter
unsynced wal = record wal { fsyncs = 0 }

abbrev pub working : Disk
working wal bytes = flushed

-- What a job does on a disk that works.
abbrev pub appended : WalWriter → List Bytes → WalWriter
appended wal bytes = record wal {
  lines = if wal.failed then wal.lines else added wal bytes;
  ended = if wal.failed then wal.ended else ended_after wal bytes true;
}

abbrev pub performed : WalWriter → WalJob → Replies × WalWriter
performed wal (write_job bytes id) = ((id, not wal.failed) ∷ [], appended wal bytes)
performed wal (replace_job lines) = ([], replaced wal lines)

abbrev pub perform_all : WalWriter → List WalJob → Replies × WalWriter
perform_all wal [] = ([], wal)
perform_all wal (job ∷ jobs) =
    let (replies, after) = performed wal job in
    let (others, last) = perform_all after jobs in (replies ++ others, last)

-- Jobs that wait in a batch.
abbrev pub bytes_of : List (List Bytes × ℕ) → List Bytes
bytes_of [] = []
bytes_of ((bytes, id) ∷ rest) = bytes ++ bytes_of rest

abbrev pub ids_of : List (List Bytes × ℕ) → List ℕ
ids_of [] = []
ids_of ((bytes, id) ∷ rest) = id ∷ ids_of rest

pub flush_view :
    (wal : WalWriter) (bytes : List Bytes)
    → ((flush flushed wal bytes).0 ≡ not wal.failed)
      × (unsynced (flush flushed wal bytes).1 ≡ unsynced (appended wal bytes))
unfolding flush
flush_view wal [] = ground arith
flush_view wal (line ∷ more) = ground arith
