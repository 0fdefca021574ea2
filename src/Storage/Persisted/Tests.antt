-- ===== src/Storage/Persisted/Tests.antt =====
-- The persisted form of two assignments, whose texts come in the other order than their resources.
use ganglion.Prelude.{nat_ord, list_ord, Option, none, List, [], ◌∷◌, ◌≡◌, refl, arith, ok}
use ganglion.BTreeMap.{insert}
use ganglion.BTreeMap.Rekey.{map_keys}
use ganglion.Core.Model.{Str, resource_ord, CoordinationSnapshot, default_snapshot}
use ganglion.Storage.MemoryLog.{MetadataLogEntry}
use ganglion.Storage.FileLog.{strict, complete, write_entries, read_all_entries}
use ganglion.Storage.FileLog.RoundTrip.{IsOrdered}
use ganglion.Storage.FileLog.Sequence.{IsSequence}
use ganglion.Storage.Persisted.{encode_snapshot, persisted_lines, read_all_entries-persisted_lines}
use ganglion.Storage.Persisted.Samples.{resource, assignment, serde, serde-Reads}

abbrev snapshot : CoordinationSnapshot
snapshot = record default_snapshot {
  assignments = (resource 1 5, assignment 1 5) ∷ (resource 2 3, assignment 2 3) ∷ [];
  generation = 4;
}

snapshot-IsOrdered : IsOrdered snapshot
snapshot-IsOrdered = ((refl, tt), (tt, tt))

-- The texts are in the other order.
encodes :
    encode_snapshot serde snapshot
    ≡ ok (record {
      nodes = [];
      assignments =
          ((3 ∷ 3 ∷ 0 ∷ 0 ∷ 0 ∷ []), assignment 2 3)
          ∷ ((5 ∷ 2 ∷ 0 ∷ 0 ∷ 0 ∷ []), assignment 1 5)
          ∷ [];
      resources = [];
      attributes = [];
      generation = 4;
    })
unfolding encode_snapshot map_keys insert
encodes = refl

abbrev entries : List MetadataLogEntry
entries =
    record { term = 2; index = 1; snapshot = snapshot }
    ∷ record { term = 2; index = 2; snapshot = default_snapshot }
    ∷ []

abbrev written : Option (List Str)
written = (write_entries (persisted_lines serde) complete none entries).1

writes : write_entries (persisted_lines serde) complete none entries ≡ (ok tt, written)
unfolding write_entries encode_snapshot map_keys insert
writes = refl

entries-IsSequence : IsSequence entries
entries-IsSequence = ((omega arith, omega arith), (refl, (omega arith, omega arith)))

read_all_entries-persisted_lines_example :
    read_all_entries (persisted_lines serde) strict written ≡ ok entries
read_all_entries-persisted_lines_example =
    read_all_entries-persisted_lines serde serde-Reads strict complete none written entries
      entries-IsSequence (snapshot-IsOrdered, (tt, tt)) writes
