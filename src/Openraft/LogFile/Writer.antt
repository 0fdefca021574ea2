-- ===== src/Openraft/LogFile/Writer.antt =====
-- The writer's promises.
use ganglion.Prelude.{true, false, List, ◌++◌, [], ◌∷◌, ◌≡◌, refl, sym, ap, arith}
use mathlib.Core.List.{append-nil}
use ganglion.Openraft.Machine.{Bytes}
use ganglion.Openraft.LogFile.{DiskAppend, WalWriter, flush, join_last}

-- Once a write has failed, every later job fails and leaves the file alone.
flush_after_failure :
    (write : DiskAppend) (wal : WalWriter) (lines : List Bytes)
    → wal.failed ≡ true
    → flush write wal lines ≡ (false, wal)
unfolding flush
flush_after_failure write wal [] h = ground arith
flush_after_failure write wal (line ∷ more) h = ground arith

-- A job reported as done by a writer whose file is the one at the path, and whose last line has its
-- newline, is in the file, behind what was there, and the writer has not failed.
pub flush_done :
    (write : DiskAppend) (wal : WalWriter) (lines : List Bytes)
    → wal.detached ≡ false
    → wal.ended ≡ true
    → (flush write wal lines).0 ≡ true
    → ((flush write wal lines).1.lines ≡ wal.lines ++ lines)
      × ((flush write wal lines).1.failed ≡ false)
      × ((flush write wal lines).1.detached ≡ false)
      × ((flush write wal lines).1.ended ≡ true)
unfolding flush
flush_done write wal [] a n h = (sym (append-nil wal.lines), ground arith, a, n)
flush_done write wal (line ∷ more) a n h = ground arith

-- A line reported as written behind one without its newline goes on in that line.
pub flush_joined :
    (write : DiskAppend) (wal : WalWriter) (line : Bytes)
    → wal.detached ≡ false
    → wal.ended ≡ false
    → (flush write wal (line ∷ [])).0 ≡ true
    → (flush write wal (line ∷ [])).1.lines ≡ join_last wal.lines line []
unfolding flush
flush_joined write wal line a n h = ground arith

pub join_last-append :
    (lines : List Bytes) (last line : Bytes)
    → join_last (lines ++ last ∷ []) line [] ≡ lines ++ (last ++ line) ∷ []
unfolding join_last
join_last-append [] last line = refl
join_last-append (first ∷ []) last line = refl
join_last-append (first ∷ second ∷ rest) last line =
    ap (λ lines. first ∷ lines) (join_last-append (second ∷ rest) last line)
