-- ===== src/Storage/FileLog/RoundTrip.antt =====
-- What is written to a file is read back, so the file holds what the log in memory would hold.
use ganglion.Prelude.{
  ℕ, ◌+◌, ◌<◌, Option, some, true, false, List, [], ◌∷◌, ◌++◌, ◌≡◌, sym, ap, arith, eqb, u64_max,
  ok, refl, All, All-imp, All-append, All-filter, if◌then◌else◌,
}
use mathlib.Core.List.{append_assoc, append-nil}
use mathlib.Core.Path.{subst}
use ganglion.BTreeMap.Sorted.{IsSorted}
use ganglion.Core.Model.{Str, resource_ord, CoordinationSnapshot}
use ganglion.Storage.MemoryLog.{MetadataLogEntry, next_index}
use ganglion.Storage.MemoryLog as Memory
use ganglion.Storage.FileLog.{
  FileMetadataReplayPolicy, LineCodec, FileWrite, complete, not_created, stopped, is_skipped,
  all_valid, expected_index, read_lines, read_all_entries, print_entries, write_entries,
  append_entry, truncate_from,
}
use ganglion.Storage.FileLog.Sequence.{
  IsSequence, ReadsWords, read_all_entries-IsSequence, read_all_entries-keeps, filter-IsSequence,
}

-- The assignments are in key order, as those of every `BTreeMap` are.
abbrev pub IsOrdered : CoordinationSnapshot → Type 0
IsOrdered snapshot = IsSorted snapshot.assignments

-- A line that is written for an entry is text, is not skipped and is read as that entry.
abbrev pub ReadsBackAt : LineCodec → MetadataLogEntry → Type 0
ReadsBackAt codec e =
    (line : Str)
    → codec.print e ≡ some line
    → (codec.valid_utf8 line ≡ true)
      × ((is_skipped (codec.trim line) ≡ false)
          × (codec.parse (codec.trim line) ≡ some (e.term, (e.index, some e.snapshot))))

abbrev pub ReadsBack : LineCodec → Type 0
ReadsBack codec = (e : MetadataLogEntry) → IsOrdered e.snapshot → ReadsBackAt codec e

-- A snapshot that is read has its assignments in key order.
abbrev pub ReadsOrdered : LineCodec → Type 0
ReadsOrdered codec =
    (line : Str) (term index : ℕ) (snapshot : CoordinationSnapshot)
    → codec.parse line ≡ some (term, (index, some snapshot))
    → IsOrdered snapshot

abbrev pub AreOrdered : List MetadataLogEntry → Type 0
AreOrdered entries = All (λ e. IsOrdered e.snapshot) entries

-- The entry in the middle of a sequence is the one expected after those before it.
pub expected_next :
    (codec : LineCodec) (done : List MetadataLogEntry) (e : MetadataLogEntry)
    (rest : List MetadataLogEntry)
    → IsSequence (done ++ e ∷ rest)
    → (eqb e.index 0 ≡ false) × (eqb e.index (expected_index codec done e.index) ≡ true)
expected_next codec [] e [] s = ground arith
expected_next codec [] e (f ∷ rest) s = ground arith
expected_next codec (d ∷ []) e [] s = ground arith
expected_next codec (d ∷ []) e (f ∷ rest) s = ground arith
expected_next codec (d ∷ c ∷ done) e rest s = expected_next codec (c ∷ done) e rest s.1.1

module _ (codec : LineCodec) (policy : FileMetadataReplayPolicy) where
  read_lines-print_entries :
      (entries done : List MetadataLogEntry) (n : ℕ) (lines : List Str)
      → All (ReadsBackAt codec) entries
      → IsSequence (done ++ entries)
      → print_entries codec entries ≡ (true, lines)
      → read_lines codec policy done n lines ≡ ok (done ++ entries)
  unfolding read_lines print_entries
  read_lines-print_entries [] done n [] back s h = ap ok (sym (append-nil done))
  read_lines-print_entries [] done n (line ∷ lines) back s h = cc
  read_lines-print_entries (e ∷ entries) done n [] back s h = absurd (ground arith)
  read_lines-print_entries (e ∷ entries) done n (line ∷ lines) back s h =
      let printed : codec.print e ≡ some line = ground arith in
      let others : print_entries codec entries ≡ (true, lines) = ground arith in
      let whole = append_assoc done (e ∷ []) entries in
      let next =
        read_lines-print_entries entries (done ++ e ∷ []) (n + 1) lines back.1
          (subst IsSequence (sym whole) s) others in
      ground (arith, back.0 line printed, expected_next codec done e entries s, next, whole)

  all_valid-print_entries :
      (entries : List MetadataLogEntry) (lines : List Str)
      → All (ReadsBackAt codec) entries
      → print_entries codec entries ≡ (true, lines)
      → all_valid codec lines ≡ true
  unfolding print_entries
  all_valid-print_entries [] [] back h = refl
  all_valid-print_entries [] (line ∷ lines) back h = cc
  all_valid-print_entries (e ∷ entries) [] back h = refl
  all_valid-print_entries (e ∷ entries) (line ∷ lines) back h =
      let printed : codec.print e ≡ some line = ground arith in
      let others : print_entries codec entries ≡ (true, lines) = ground arith in
      ground (arith, back.0 line printed, all_valid-print_entries entries lines back.1 others)

  -- Entries whose indices count up by one are read back entry for entry from a file that was
  -- written without failure, if the lines written for them can be read back.
  pub read_all_entries-write_each :
      (file after : Option (List Str)) (write : FileWrite) (entries : List MetadataLogEntry)
      → All (ReadsBackAt codec) entries
      → IsSequence entries
      → write_entries codec write file entries ≡ (ok tt, after)
      → read_all_entries codec policy after ≡ ok entries
  unfolding read_all_entries write_entries
  read_all_entries-write_each file after not_created entries back s h = cc
  read_all_entries-write_each file after (stopped part) entries back s h = cc
  read_all_entries-write_each file after complete entries back s h =
      let lines = (print_entries codec entries).1 in
      let printed : print_entries codec entries ≡ (true, lines) = ground arith in
      ground (
        arith,
        read_lines-print_entries entries [] 0 lines back s printed,
        all_valid-print_entries entries lines back printed,
      )

module _ (codec : LineCodec) (back : ReadsBack codec) (policy : FileMetadataReplayPolicy) where
  ReadsBack-All :
      (entries : List MetadataLogEntry) → AreOrdered entries → All (ReadsBackAt codec) entries
  ReadsBack-All entries = All-imp back entries

  -- The same when every entry in key order can be read back, and these are.
  pub read_all_entries-write_entries :
      (file after : Option (List Str)) (write : FileWrite) (entries : List MetadataLogEntry)
      → AreOrdered entries
      → IsSequence entries
      → write_entries codec write file entries ≡ (ok tt, after)
      → read_all_entries codec policy after ≡ ok entries
  read_all_entries-write_entries file after write entries ordered =
      read_all_entries-write_each codec policy file after write entries
        (ReadsBack-All entries ordered)

next-IsSequence :
    (entries : List MetadataLogEntry) (term : ℕ) (snapshot : CoordinationSnapshot)
    → IsSequence entries
    → next_index entries < u64_max
    → IsSequence (Memory.append_entry entries term snapshot).1
unfolding Memory.append_entry
next-IsSequence [] term snapshot s h = ground arith
next-IsSequence (d ∷ []) term snapshot s h = ground arith
next-IsSequence (d ∷ e ∷ entries) term snapshot s h =
    (s.0, (s.1.0, next-IsSequence (e ∷ entries) term snapshot s.1.1 h))

module _ (codec : LineCodec) (ordered : ReadsOrdered codec)
    (policy : FileMetadataReplayPolicy) where
  read_all_entries-AreOrdered :
      (file : Option (List Str)) (entries : List MetadataLogEntry)
      → read_all_entries codec policy file ≡ ok entries
      → AreOrdered entries
  read_all_entries-AreOrdered file entries =
      read_all_entries-keeps codec policy AreOrdered
        (λ es line e s parsed positive next.
          All-append (λ x. IsOrdered x.snapshot) es (e ∷ []) s
            (ordered line e.term e.index e.snapshot parsed, tt))
        file entries tt

module _ (codec : LineCodec) (back : ReadsBack codec) (words : ReadsWords codec)
    (ordered : ReadsOrdered codec) (policy : FileMetadataReplayPolicy) where
  -- An append that returned an entry to a file that reads as some entries did what the log in
  -- memory does: the entry is the one that memory would give, and the file reads as the old
  -- entries with it. The next index is below the maximum of a u64, written lines can be read
  -- back, and indices are read as u64.
  pub append_entry-refines :
      (write : FileWrite) (file after : Option (List Str)) (entries : List MetadataLogEntry)
      (term : ℕ) (snapshot : CoordinationSnapshot) (entry : MetadataLogEntry)
      → read_all_entries codec policy file ≡ ok entries
      → next_index entries < u64_max
      → IsOrdered snapshot
      → append_entry codec policy write file term snapshot ≡ (ok entry, after)
      → (entry ≡ (Memory.append_entry entries term snapshot).0)
        × (read_all_entries codec policy after ≡ ok (Memory.append_entry entries term snapshot).1)
  unfolding append_entry Memory.append_entry
  append_entry-refines write file after entries term snapshot entry r b fit h =
      let s = read_all_entries-IsSequence codec words policy file entries r in
      let grown = (Memory.append_entry entries term snapshot).1 in
      let wrote : write_entries codec write file grown ≡ (ok tt, after) = ground arith in
      (
        ground arith,
        read_all_entries-write_entries codec back policy file after write grown
            (All-append (λ e. IsOrdered e.snapshot) entries _
              (read_all_entries-AreOrdered codec ordered policy file entries r) (fit, tt))
            (next-IsSequence entries term snapshot s b) wrote,
      )

  -- A truncation that returned, of a file that reads as some entries, leaves a file that reads
  -- as the log in memory would hold. Lines written for snapshots in key order can
  -- be read back, and what is read is such, with indices that are u64.
  truncate_from-refines :
      (write : FileWrite) (file after : Option (List Str)) (entries : List MetadataLogEntry)
      (first_index : ℕ)
      → read_all_entries codec policy file ≡ ok entries
      → truncate_from codec policy write file first_index ≡ (ok tt, after)
      → read_all_entries codec policy after ≡ ok (Memory.truncate_from entries first_index)
  unfolding truncate_from Memory.truncate_from
  truncate_from-refines write file after entries first_index r h =
      let s = read_all_entries-IsSequence codec words policy file entries r in
      let kept = Memory.truncate_from entries first_index in
      let wrote : write_entries codec write file kept ≡ (ok tt, after) = ground arith in
      read_all_entries-write_entries codec back policy file after write kept
        (All-filter (λ e. IsOrdered e.snapshot) _ entries
          (read_all_entries-AreOrdered codec ordered policy file entries r))
        (filter-IsSequence (if eqb first_index 0 then 1 else first_index) entries s) wrote
