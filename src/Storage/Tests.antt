-- ===== src/Storage/Tests.antt =====
-- The results of the metadata log at sample data.
use ganglion.Prelude.{ℕ, Option, some, List, [], ◌∷◌, ◌≡◌, refl, arith, ok}
use ganglion.Core.Model.{Str, default_snapshot}
use ganglion.Storage.MemoryLog.{MetadataLogEntry}
use ganglion.Storage.MemoryLog as Memory
use ganglion.Storage.FileLog.{
  FileMetadataReplayPolicy, truncate_tail, complete, read_all_entries, write_entries, append_entry,
  truncate_from,
}
use ganglion.Storage.FileLog.Sequence.{IsSequence}
use ganglion.Storage.Samples.{line_codec}

abbrev entry_at : ℕ → MetadataLogEntry
entry_at index = record {
  term = 2;
  index = index;
  snapshot = record default_snapshot { generation = index };
}

abbrev file : Option (List Str)
file = some ((35 ∷ 32 ∷ []) ∷ (1 ∷ 2 ∷ 4 ∷ 4 ∷ []) ∷ [] ∷ (1 ∷ 2 ∷ 5 ∷ 5 ∷ []) ∷ (9 ∷ []) ∷ [])

abbrev policy : FileMetadataReplayPolicy
policy = truncate_tail 1

abbrev entries : List MetadataLogEntry
entries = entry_at 4 ∷ entry_at 5 ∷ []

reads : read_all_entries line_codec policy file ≡ ok entries
unfolding read_all_entries
reads = refl

entries-IsSequence : IsSequence entries
entries-IsSequence = (omega arith, (refl, omega arith))

abbrev written : Option (List Str)
written = (write_entries line_codec complete file entries).1

writes : write_entries line_codec complete file entries ≡ (ok tt, written)
unfolding write_entries
writes = refl

abbrev appended : Option (List Str)
appended = (append_entry line_codec policy complete file 3 default_snapshot).1

appends :
    append_entry line_codec policy complete file 3 default_snapshot
    ≡ (ok (Memory.append_entry entries 3 default_snapshot).0, appended)
unfolding append_entry Memory.append_entry
appends = refl

abbrev truncated : Option (List Str)
truncated = (truncate_from line_codec policy complete file 5).1

truncates : truncate_from line_codec policy complete file 5 ≡ (ok tt, truncated)
unfolding truncate_from
truncates = refl
