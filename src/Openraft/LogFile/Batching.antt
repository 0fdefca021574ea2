-- ===== src/Openraft/LogFile/Batching.antt =====
-- On a disk that works, the way in which queued jobs are batched is not seen, but in the number of
-- syncs.
use mathlib.Core.List.{append_assoc, append-nil}
use mathlib.Core.Path.{subst}
use ganglion.Prelude.{
  true, false, All, All-append, ℕ, List, [], ◌∷◌, ◌++◌, ◌≡◌, not, refl, sym, ap, ◌∙◌, arith,
}
use ganglion.Openraft.Machine.{Bytes}
use ganglion.Openraft.LogFile.{flushed, WalWriter, join_last, flush}
use ganglion.Openraft.LogFile.Queue.{
  Disk, WalJob, write_job, replace_job, Replies, replies_to, flush_pending, replaced, run_jobs,
  run_batches, one_by_one, concat, unsynced, working, appended, performed, perform_all, bytes_of,
  ids_of, flush_view,
}

abbrev jobs_of : List (List Bytes × ℕ) → List WalJob
jobs_of [] = []
jobs_of ((bytes, id) ∷ rest) = write_job bytes id ∷ jobs_of rest

-- What is seen of a run.
abbrev pub seen : Replies × WalWriter → Replies × WalWriter
seen (replies, wal) = (replies, unsynced wal)

abbrev in_front_of : Replies → Replies × WalWriter → Replies × WalWriter
in_front_of replies (others, last) = (replies ++ others, last)

-- Every waiter hears of a failure.
abbrev AreFailures : Replies → Type 0
AreFailures replies = All (λ r. r.1 ≡ false) replies

join_last-append :
    (lines : List Bytes) (x y : Bytes) (xs ys : List Bytes)
    → join_last lines x (xs ++ y ∷ ys) ≡ join_last lines x xs ++ y ∷ ys
unfolding join_last
join_last-append [] x y xs ys = refl
join_last-append (last ∷ []) x y xs ys = refl
join_last-append (first ∷ second ∷ rest) x y xs ys =
    ap (λ lines. first ∷ lines) (join_last-append (second ∷ rest) x y xs ys)

appended-append :
    (wal : WalWriter) (xs ys : List Bytes) → appended (appended wal xs) ys ≡ appended wal (xs ++ ys)
unfolding ganglion.Openraft.LogFile.added ganglion.Openraft.LogFile.ended_after
appended-append wal [] ys = ground arith
appended-append wal (x ∷ xs) [] = ground (arith, append-nil xs)
appended-append wal (x ∷ xs) (y ∷ ys) =
    ground (arith, append_assoc wal.lines (x ∷ xs) (y ∷ ys), join_last-append wal.lines x y xs ys)

appended_nothing : (wal : WalWriter) → appended wal [] ≡ wal
unfolding ganglion.Openraft.LogFile.added ganglion.Openraft.LogFile.ended_after
appended_nothing wal = ground arith

perform_all-jobs_of :
    (wal : WalWriter) (pending : List (List Bytes × ℕ)) (jobs : List WalJob)
    → perform_all wal (jobs_of pending ++ jobs) ≡ (
        let (others, last) = perform_all (appended wal (bytes_of pending)) jobs in
        (replies_to (not wal.failed) (ids_of pending) ++ others, last))
perform_all-jobs_of wal [] jobs = rw (appended_nothing wal) refl
perform_all-jobs_of wal ((bytes, id) ∷ rest) jobs =
    rw
      (
        perform_all-jobs_of (appended wal bytes) rest jobs,
        appended-append wal bytes (bytes_of rest),
      )
      refl

bytes_of-append :
    (xs : List (List Bytes × ℕ)) (bytes : List Bytes) (id : ℕ)
    → bytes_of (xs ++ (bytes, id) ∷ []) ≡ bytes_of xs ++ bytes
bytes_of-append [] bytes id = append-nil bytes
bytes_of-append ((more, i) ∷ xs) bytes id =
    ap (λ b. more ++ b) (bytes_of-append xs bytes id) ∙ sym (append_assoc more (bytes_of xs) bytes)

ids_of-append :
    (xs : List (List Bytes × ℕ)) (bytes : List Bytes) (id : ℕ)
    → ids_of (xs ++ (bytes, id) ∷ []) ≡ ids_of xs ++ id ∷ []
ids_of-append [] bytes id = refl
ids_of-append ((more, i) ∷ xs) bytes id = ap (λ ids. i ∷ ids) (ids_of-append xs bytes id)

jobs_of-append :
    (xs : List (List Bytes × ℕ)) (bytes : List Bytes) (id : ℕ) (jobs : List WalJob)
    → jobs_of (xs ++ (bytes, id) ∷ []) ++ jobs ≡ jobs_of xs ++ write_job bytes id ∷ jobs
jobs_of-append [] bytes id jobs = refl
jobs_of-append ((more, i) ∷ xs) bytes id jobs =
    ap (λ rest. write_job more i ∷ rest) (jobs_of-append xs bytes id jobs)

flush_pending-working :
    (wal : WalWriter) (pending : List (List Bytes × ℕ))
    → seen (flush_pending working wal (bytes_of pending) (ids_of pending))
      ≡ (replies_to (not wal.failed) (ids_of pending), appended (unsynced wal) (bytes_of pending))
unfolding flush_pending
flush_pending-working wal [] = ap (λ w. ([], w)) (sym (appended_nothing (unsynced wal)))
flush_pending-working wal ((bytes, id) ∷ rest) =
    let (done, view) = flush_view wal (bytes ++ bytes_of rest) in
    ap
      (λ d.
        (replies_to d (id ∷ ids_of rest), unsynced (flush flushed wal (bytes ++ bytes_of rest)).1))
      done
    ∙ ap (λ w. (replies_to (not wal.failed) (id ∷ ids_of rest), w)) view

run_jobs-working :
    (jobs : List WalJob) (wal : WalWriter) (pending : List (List Bytes × ℕ))
    → seen (run_jobs working wal (bytes_of pending) (ids_of pending) jobs)
      ≡ perform_all (unsynced wal) (jobs_of pending ++ jobs)
unfolding run_jobs
run_jobs-working [] wal pending =
    let after = appended (unsynced wal) (bytes_of pending) in
    flush_pending-working wal pending
    ∙ sym (
        perform_all-jobs_of (unsynced wal) pending []
        ∙ ap (λ replies. (replies, after))
            (append-nil (replies_to (not wal.failed) (ids_of pending))))
run_jobs-working (write_job bytes id ∷ jobs) wal pending =
    let more = pending ++ (bytes, id) ∷ [] in
    ap (λ b. seen (run_jobs working wal b (ids_of pending ++ id ∷ []) jobs))
      (sym (bytes_of-append pending bytes id))
    ∙ ap (λ ids. seen (run_jobs working wal (bytes_of more) ids jobs))
        (sym (ids_of-append pending bytes id))
    ∙ run_jobs-working jobs wal more
    ∙ ap (perform_all (unsynced wal)) (jobs_of-append pending bytes id jobs)
run_jobs-working (replace_job lines ∷ jobs) wal pending =
    let (replies, after) = flush_pending working wal (bytes_of pending) (ids_of pending) in
    ap (in_front_of replies) (run_jobs-working jobs (replaced after lines) [])
    ∙ ap (λ f. in_front_of f.0 (perform_all (replaced f.1 lines) jobs))
        (flush_pending-working wal pending)
    ∙ sym (perform_all-jobs_of (unsynced wal) pending (replace_job lines ∷ jobs))

perform_all-append :
    (xs ys : List WalJob) (wal : WalWriter)
    → perform_all wal (xs ++ ys)
      ≡ in_front_of (perform_all wal xs).0 (perform_all (perform_all wal xs).1 ys)
perform_all-append [] ys wal = refl
perform_all-append (x ∷ xs) ys wal =
    ap (in_front_of (performed wal x).0) (perform_all-append xs ys (performed wal x).1)
    ∙ ap (λ replies. (replies, (perform_all (perform_all (performed wal x).1 xs).1 ys).1))
        (sym (
          append_assoc (performed wal x).0 (perform_all (performed wal x).1 xs).0
            (perform_all (perform_all (performed wal x).1 xs).1 ys).0))

run_batches-working :
    (batches : List (List WalJob)) (wal : WalWriter)
    → seen (run_batches working wal batches) ≡ perform_all (unsynced wal) (concat batches)
unfolding run_batches
run_batches-working [] wal = refl
run_batches-working (batch ∷ batches) wal =
    let (replies, after) = run_jobs working wal [] [] batch in
    ap (in_front_of replies) (run_batches-working batches after)
    ∙ ap (λ f. in_front_of f.0 (perform_all f.1 (concat batches))) (run_jobs-working batch wal [])
    ∙ sym (perform_all-append batch (concat batches) (unsynced wal))

concat-one_by_one : (jobs : List WalJob) → concat (one_by_one jobs) ≡ jobs
concat-one_by_one [] = refl
concat-one_by_one (job ∷ jobs) = ap (λ rest. job ∷ rest) (concat-one_by_one jobs)

-- On a disk that works, the writer that takes its queue in batches, in whatever way, gives each
-- waiter the same reply in the same order, and leaves the same file and the same flags, as a writer
-- that takes each job by itself: the number of syncs alone may differ.
pub run_batches-one_by_one :
    (batches : List (List WalJob)) (wal : WalWriter)
    → seen (run_batches working wal batches)
      ≡ seen (run_batches working wal (one_by_one (concat batches)))
run_batches-one_by_one batches wal =
    run_batches-working batches wal
    ∙ ap (perform_all (unsynced wal)) (sym (concat-one_by_one (concat batches)))
    ∙ sym (run_batches-working (one_by_one (concat batches)) wal)

replies_to-AreFailures : (ids : List ℕ) → AreFailures (replies_to false ids)
replies_to-AreFailures [] = tt
replies_to-AreFailures (id ∷ ids) = (refl, replies_to-AreFailures ids)

flush_failed :
    (disk : Disk) (wal : WalWriter) (bytes : List Bytes)
    → wal.failed ≡ true
    → flush (disk wal bytes) wal bytes ≡ (false, wal)
unfolding flush
flush_failed disk wal [] h = ground arith
flush_failed disk wal (line ∷ more) h = ground arith

flush_pending-failed :
    (disk : Disk) (wal : WalWriter) (bytes : List Bytes) (waiting : List ℕ)
    → wal.failed ≡ true
    → flush_pending disk wal bytes waiting ≡ (replies_to false waiting, wal)
unfolding flush_pending
flush_pending-failed disk wal bytes [] h = refl
flush_pending-failed disk wal bytes (id ∷ ids) h =
    ap (λ r. (replies_to r.0 (id ∷ ids), r.1)) (flush_failed disk wal bytes h)

-- After a failed write, whatever the disk does, every waiter hears of a failure and the writer
-- stays failed, also where a rewrite gives it a new file.
run_jobs-failed :
    (disk : Disk) (jobs : List WalJob) (wal : WalWriter) (bytes : List Bytes) (waiting : List ℕ)
    → wal.failed ≡ true
    → AreFailures (run_jobs disk wal bytes waiting jobs).0
      × ((run_jobs disk wal bytes waiting jobs).1.failed ≡ true)
unfolding run_jobs
run_jobs-failed disk [] wal bytes waiting h =
    subst (λ r. AreFailures r.0 × (r.1.failed ≡ true))
      (sym (flush_pending-failed disk wal bytes waiting h)) (replies_to-AreFailures waiting, h)
run_jobs-failed disk (write_job more id ∷ jobs) wal bytes waiting h =
    run_jobs-failed disk jobs wal (bytes ++ more) (waiting ++ id ∷ []) h
run_jobs-failed disk (replace_job lines ∷ jobs) wal bytes waiting h =
    let kept = flush_pending-failed disk wal bytes waiting h in
    let failed = subst (λ r. r.1.failed ≡ true) (sym kept) h in
    let rest =
      run_jobs-failed disk jobs (replaced (flush_pending disk wal bytes waiting).1 lines) [] []
        failed in
    (
      All-append (λ r. r.1 ≡ false) (flush_pending disk wal bytes waiting).0 _
          (subst (λ r. AreFailures r.0) (sym kept) (replies_to-AreFailures waiting)) rest.0,
      rest.1,
    )
