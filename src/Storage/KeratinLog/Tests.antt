-- ===== src/Storage/KeratinLog/Tests.antt =====
-- The Keratin log on a sample keratin, which scans one record at a time.
use mathlib.Core.List.{append-nil}
use ganglion.Prelude.{
  ℕ, Option, none, some, true, List, [], ◌∷◌, ◌++◌, ◌≡◌, refl, arith, ◌⊎◌, length, leb, filter, ok,
  err,
}
use ganglion.BTreeMap.{insert}
use ganglion.BTreeMap.Rekey.{map_keys}
use ganglion.Core.Model.{Str, resource_ord, CoordinationSnapshot, default_snapshot}
use ganglion.Storage.MemoryLog.{MetadataLogEntry}
use ganglion.Storage.MemoryLog as Memory
use ganglion.Storage.FileLog.{strict, truncate_tail, io, malformed_record, LineCodec}
use ganglion.Storage.KeratinLog.{
  OwnedRecord, KeratinRole, owner, follower, frozen, Keratin, scan, read_all_entries, append_entry,
  truncate_from,
}
use ganglion.Storage.KeratinLog.Scan.{Stores, scan-returns}
use ganglion.Storage.KeratinLog.Append.{ReadsPayload, append_entry-kept, append_entry-lost}
use ganglion.Storage.Persisted.{persisted_lines, persisted_lines-ReadsBack, encode_snapshot}
use ganglion.Storage.Persisted.Samples.{resource, assignment, serde, serde-Reads}
use ganglion.Storage.Samples.{line_codec}

record Stored : Type 0 where
  pub role : KeratinRole
  pub log : List OwnedRecord

abbrev first_of : List OwnedRecord → List OwnedRecord
first_of [] = []
first_of (r ∷ rs) = r ∷ []

abbrev grow : List OwnedRecord → Str → List OwnedRecord
grow log payload = log ++ record { offset = length log; payload = payload } ∷ []

abbrev keratin : Keratin Stored
keratin = record {
  scan_from = λ k cursor max. some (first_of (filter (λ r. leb cursor r.offset) k.log));
  append = λ k payload. (true, record k { log = grow k.log payload });
  role = λ k. k.role;
  become_owner = λ k. record k { role = owner };
  become_follower = λ k. record k { role = follower };
  freeze = λ k. record k { role = frozen };
  destructive_reset_to_checkpoint = λ k next_offset. (true, record k { log = [] });
}

abbrev records : Stored → List OwnedRecord
records k = k.log

first_of-rest :
    (rs batch : List OwnedRecord)
    → Option.some (first_of rs) ≡ some batch
    → (rest : List OwnedRecord) × ((rs ≡ batch ++ rest) × (batch ≡ [] → rest ≡ []))
first_of-rest [] batch h = ([], (cc (append-nil batch), λ e. refl))
first_of-rest (r ∷ rs) batch h = (rs, (cc, λ e. cc))

keratin-Stores : Stores keratin records
keratin-Stores = record {
  records-scan_from =
      λ k cursor batch h. first_of-rest (filter (λ r. leb cursor r.offset) k.log) batch h;
  records-append = λ k after payload h. (length k.log, ground arith);
  records-reset = λ k after next_offset h. ground arith;
  records-roles = λ k. (refl, (refl, refl));
  role-roles = λ k. (refl, (refl, refl));
}

abbrev entry_at : ℕ → MetadataLogEntry
entry_at index = record {
  term = 2;
  index = index;
  snapshot = record default_snapshot { generation = index };
}

-- Two assignments, whose texts come in the other order than their resources.
abbrev assigned : CoordinationSnapshot
assigned = record default_snapshot {
  assignments = (resource 1 5, assignment 1 5) ∷ (resource 2 3, assignment 2 3) ∷ [];
}

abbrev clean : Stored
clean = record {
  role = owner;
  log =
      record { offset = 0; payload = 1 ∷ 2 ∷ 4 ∷ 4 ∷ [] }
      ∷ record { offset = 1; payload = 1 ∷ 2 ∷ 5 ∷ 5 ∷ [] }
      ∷ [];
}

abbrev torn : Stored
torn = record clean { log = grow clean.log (9 ∷ []) }

abbrev entries : List MetadataLogEntry
entries = entry_at 4 ∷ entry_at 5 ∷ []

abbrev grown : Stored
grown = record clean { log = grow clean.log (1 ∷ 3 ∷ 6 ∷ 0 ∷ []) }

abbrev lost : Stored
lost = record torn { log = grow torn.log (1 ∷ 3 ∷ 6 ∷ 0 ∷ []) }

abbrev cut : Stored
cut = record clean { log = grow [] (1 ∷ 2 ∷ 5 ∷ 5 ∷ []) }

abbrev added : MetadataLogEntry
added = (Memory.append_entry entries 3 default_snapshot).0

reads : read_all_entries keratin line_codec strict 5 clean ≡ some (ok entries)
unfolding read_all_entries
reads = refl

refuses : read_all_entries keratin line_codec strict 5 torn ≡ some (err (malformed_record 2))
unfolding read_all_entries
refuses = refl

skips : read_all_entries keratin line_codec (truncate_tail 2) 5 torn ≡ some (ok entries)
unfolding read_all_entries
skips = refl

still_skips : read_all_entries keratin line_codec (truncate_tail 2) 5 lost ≡ some (ok entries)
unfolding read_all_entries
still_skips = refl

appends :
    append_entry keratin line_codec (truncate_tail 2) 5 clean 3 default_snapshot
    ≡ some (ok added, grown)
unfolding append_entry Memory.append_entry
appends = refl

appends_in_vain :
    append_entry keratin line_codec (truncate_tail 2) 5 torn 3 default_snapshot
    ≡ some (ok added, lost)
unfolding append_entry Memory.append_entry
appends_in_vain = refl

truncates : truncate_from keratin line_codec strict 5 clean 5 ≡ some (ok tt, cut)
unfolding truncate_from
truncates = refl

scan-returns_example :
    (scan keratin clean 3 0 [] ≡ some (err io)) ⊎ (scan keratin clean 3 0 [] ≡ some (ok clean.log))
scan-returns_example =
    scan-returns keratin records keratin-Stores clean (omega arith) 3 (omega arith)

-- The same log with the entries in the form that the program writes.
abbrev codec : LineCodec
codec = persisted_lines serde

added-ReadsPayload : ReadsPayload codec (Memory.append_entry [] 3 assigned).0
unfolding Memory.append_entry
added-ReadsPayload payload h =
    (persisted_lines-ReadsBack serde serde-Reads (Memory.append_entry [] 3 assigned).0
      ((refl, tt), (tt, tt)) payload h).1.1

abbrev started : Stored
started = record clean { log = [] }

abbrev stored : Stored
stored = record clean {
  log = grow [] (elim (codec.print (Memory.append_entry [] 3 assigned).0) [
    | none ↦ []
    | some payload ↦ payload
  ]);
}

starts : read_all_entries keratin codec strict 5 started ≡ some (ok [])
unfolding read_all_entries
starts = refl

stores_one :
    append_entry keratin codec (truncate_tail 2) 5 started 3 assigned
    ≡ some (ok (Memory.append_entry [] 3 assigned).0, stored)
unfolding append_entry Memory.append_entry encode_snapshot map_keys insert
stores_one = refl

append_entry-kept_example :
    ((Memory.append_entry [] 3 assigned).0 ≡ (Memory.append_entry [] 3 assigned).0)
    × ((read_all_entries keratin codec (truncate_tail 2) 5 stored ≡ some (err io))
        ⊎ (read_all_entries keratin codec (truncate_tail 2) 5 stored
            ≡ some (ok (Memory.append_entry [] 3 assigned).1)))
append_entry-kept_example =
    append_entry-kept keratin records keratin-Stores codec (truncate_tail 2) 5 5 started stored 3
      assigned (Memory.append_entry [] 3 assigned).0 [] added-ReadsPayload (omega arith)
      (omega arith) (omega arith) (omega arith) (omega arith) starts stores_one

append_entry-lost_example : entries ≡ entries
append_entry-lost_example =
    append_entry-lost keratin records keratin-Stores line_codec 2 5 5 torn lost 3 default_snapshot
      added entries entries (malformed_record 2) (omega arith) (omega arith) (omega arith)
      (omega arith) refuses skips appends_in_vain still_skips
