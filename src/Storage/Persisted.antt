-- ===== src/Storage/Persisted.antt =====
-- The form in which `crates/ganglion-storage/src/lib.rs` writes an entry: a snapshot whose
-- assignments have the text of the resource for a key, since a JSON object has strings for keys.
-- What `serde_json` does is a parameter.
pub mod Samples
mod Tests
use mathlib.Core.Path.{subst}
use ganglion.Prelude.{
  ℕ, ◌≤◌, Bool, u64_max, Option-cases, inl, inr, nat_ord, list_ord, Option, some, none, true, false,
  List, [], ◌∷◌, ◌≡◌, refl, ap, ◌∙◌, arith, Result, ok, err, All,
}
use ganglion.BTreeMap.{BTreeMap, BTreeSet}
use ganglion.BTreeMap.Sorted.{IsSorted, Each}
use ganglion.BTreeMap.Rekey.{map_keys, map_keys-IsSorted, Linked, map_keys-map_keys}
use ganglion.Core.Model.{
  Str, ResourceIdentity, resource_ord, NodeInfo, PartitionAssignment, CoordinationSnapshot,
}
use ganglion.Storage.MemoryLog.{MetadataLogEntry}
use ganglion.Storage.FileLog.{
  FileMetadataReplayPolicy, MetadataLogError, not_encoded, malformed_snapshot, LineCodec,
  is_skipped, FileWrite, write_entries, read_all_entries,
}
use ganglion.Storage.FileLog.RoundTrip.{
  IsOrdered, AreOrdered, ReadsBackAt, ReadsBack, ReadsOrdered, read_all_entries-write_entries,
}
use ganglion.Storage.FileLog.Sequence.{IsSequence, ReadsWords}

pub record PersistedCoordinationSnapshot : Type 0 where
  pub nodes : BTreeMap Str NodeInfo
  pub assignments : BTreeMap Str PartitionAssignment
  pub resources : BTreeSet ResourceIdentity
  pub attributes : BTreeMap Str Str
  pub generation : ℕ

pub record PersistedMetadataLogEntry : Type 0 where
  pub term : ℕ
  pub index : ℕ
  pub snapshot : PersistedCoordinationSnapshot

-- `serde_json` on the keys and on a whole entry, `str::trim`, and what is UTF-8.
pub record SerdeJson : Type 0 where
  pub key_to_string : ResourceIdentity → Option Str
  pub key_from_str : Str → Option ResourceIdentity
  pub entry_to_string : PersistedMetadataLogEntry → Option Str
  pub entry_from_str : Str → Option PersistedMetadataLogEntry
  pub trim : Str → Str
  pub valid_utf8 : Str → Bool

-- What `serde_json` documents: a key has a text that is read as that key; the text of an entry is
-- read as that entry, is UTF-8, is JSON, so that `trim` leaves it as it is, and starts with a brace;
-- an index is read as a u64.
pub record Reads (serde : SerdeJson) : Type 0 where
  pub keys :
      (r : ResourceIdentity)
      → (key : Str) × (serde.key_to_string r ≡ some key) × (serde.key_from_str key ≡ some r)
  pub entries :
      (e : PersistedMetadataLogEntry) (line : Str)
      → serde.entry_to_string e ≡ some line
      → (serde.trim line ≡ line)
        × (serde.valid_utf8 line ≡ true)
        × (is_skipped line ≡ false)
        × (serde.entry_from_str line ≡ some e)
  pub words :
      (line : Str) (e : PersistedMetadataLogEntry)
      → serde.entry_from_str line ≡ some e
      → e.index ≤ u64_max

module _ (serde : SerdeJson) where
  unfoldable pub encode_snapshot :
      CoordinationSnapshot → Result MetadataLogError PersistedCoordinationSnapshot
  unfolding map_keys
  encode_snapshot snapshot = elim (map_keys serde.key_to_string snapshot.assignments []) [
    | none ↦ err not_encoded
    | some assignments ↦ ok (record {
      nodes = snapshot.nodes;
      assignments = assignments;
      resources = snapshot.resources;
      attributes = snapshot.attributes;
      generation = snapshot.generation;
    })
  ]

  unfoldable pub decode_snapshot :
      PersistedCoordinationSnapshot → Result MetadataLogError CoordinationSnapshot
  unfolding map_keys
  decode_snapshot snapshot = elim (map_keys serde.key_from_str snapshot.assignments []) [
    | none ↦ err malformed_snapshot
    | some assignments ↦ ok (record {
      nodes = snapshot.nodes;
      assignments = assignments;
      resources = snapshot.resources;
      attributes = snapshot.attributes;
      generation = snapshot.generation;
    })
  ]

  -- What the loop of `write_entries` prints for an entry, and what that of `read_all_entries` gets
  -- from a line.
  abbrev pub persisted_lines : LineCodec
  persisted_lines = record {
    valid_utf8 = serde.valid_utf8;
    trim = serde.trim;
    parse = λ line. elim (serde.entry_from_str line) [
      | none ↦ none
      | some persisted ↦ some (
        persisted.term,
        (
          persisted.index,
          elim (decode_snapshot persisted.snapshot) [ err _ ↦ none | ok snapshot ↦ some snapshot ],
        ),
      )
    ];
    print = λ entry. elim (encode_snapshot entry.snapshot) [
      | err _ ↦ none
      | ok snapshot ↦
          serde.entry_to_string
            (record { term = entry.term; index = entry.index; snapshot = snapshot })
    ];
  }

module _ (serde : SerdeJson) (reads : Reads serde) where
  linked :
      (m : BTreeMap ResourceIdentity PartitionAssignment)
      → Each (Linked serde.key_to_string serde.key_from_str) m
  linked [] = tt
  linked ((r, assignment) ∷ m) = (reads.keys r, linked m)

  -- The conversion to text keys never fails, although the texts may come in another order than the
  -- resources, and the conversion back gives the same snapshot. The assignments are in key order,
  -- and the text of a resource is read as that resource.
  pub decode_snapshot-encode_snapshot :
      (snapshot : CoordinationSnapshot)
      → IsOrdered snapshot
      → (persisted : PersistedCoordinationSnapshot) × (encode_snapshot serde snapshot
          ≡ ok persisted)
        × (decode_snapshot serde persisted ≡ ok snapshot)
  unfolding encode_snapshot decode_snapshot
  decode_snapshot-encode_snapshot snapshot ordered =
      let (there, to, back) =
        map_keys-map_keys serde.key_to_string serde.key_from_str snapshot.assignments ordered
          (linked snapshot.assignments) in
      (
        record {
          nodes = snapshot.nodes;
          assignments = there;
          resources = snapshot.resources;
          attributes = snapshot.attributes;
          generation = snapshot.generation;
        },
        ground (arith, to),
        ground (arith, back),
      )

  persisted_lines-ReadsBackAt :
      (entry : MetadataLogEntry)
      → IsOrdered entry.snapshot
      → ReadsBackAt (persisted_lines serde) entry
  persisted_lines-ReadsBackAt entry ordered line h =
      let (persisted, to, back) = decode_snapshot-encode_snapshot entry.snapshot ordered in
      let (trimmed, text, kept, read) =
        reads.entries (record { term = entry.term; index = entry.index; snapshot = persisted }) line
          (ground arith) in
      (text, (ground arith, ground arith))

  -- The lines of the program's own form are such that a log may rely on them.
  pub persisted_lines-ReadsBack : ReadsBack (persisted_lines serde)
  persisted_lines-ReadsBack = persisted_lines-ReadsBackAt

  pub persisted_lines-ReadsOrdered : ReadsOrdered (persisted_lines serde)
  unfolding decode_snapshot
  persisted_lines-ReadsOrdered line term index snapshot h =
      elim (Option-cases (serde.entry_from_str line)) [
        | inl malformed ↦ absurd (ground arith)
        | inr (e, parsed) ↦
            elim (Option-cases (map_keys serde.key_from_str e.snapshot.assignments [])) [
              | inl undecoded ↦ absurd (ground arith)
              | inr (assignments, decoded) ↦ subst IsSorted (ground arith) (
                  map_keys-IsSorted serde.key_from_str e.snapshot.assignments [] assignments tt
                    decoded)
            ]
      ]

  pub persisted_lines-ReadsWords : ReadsWords (persisted_lines serde)
  persisted_lines-ReadsWords line term index decoded h =
      elim (Option-cases (serde.entry_from_str line)) [
        | inl malformed ↦ absurd (ground arith)
        | inr (e, parsed) ↦ ground (arith, reads.words line e parsed)
      ]

  -- A file that `write_entries` wrote to its end is read back entry for entry, under either replay
  -- policy. The indices count up by one, the assignments of each snapshot are in key order, and
  -- `serde_json` reads what it writes.
  pub read_all_entries-persisted_lines :
      (policy : FileMetadataReplayPolicy) (write : FileWrite) (file after : Option (List Str))
      (entries : List MetadataLogEntry)
      → IsSequence entries
      → AreOrdered entries
      → write_entries (persisted_lines serde) write file entries ≡ (ok tt, after)
      → read_all_entries (persisted_lines serde) policy after ≡ ok entries
  read_all_entries-persisted_lines policy write file after entries sequence ordered =
      read_all_entries-write_entries (persisted_lines serde) persisted_lines-ReadsBackAt policy file
        after write entries ordered sequence
