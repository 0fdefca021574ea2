-- ===== src/Storage/KeratinLog/Append.antt =====
-- What an append to the Keratin log leaves to be read.
use mathlib.Core.List.{append-nil}
use mathlib.Core.Path.{subst}
use ganglion.Prelude.{
  ℕ, ◌<◌, some, true, List, [], ◌∷◌, ◌++◌, ◌≡◌, refl, sym, ap, ◌∙◌, ◌⊎◌, inl, inr, arith, length,
  u64_max, last?, ok, err, Option-cases,
}
use ganglion.Core.Model.{Str, CoordinationSnapshot}
use ganglion.Storage.MemoryLog.{MetadataLogEntry, next_index}
use ganglion.Storage.MemoryLog as Memory
use ganglion.Storage.FileLog.{
  FileMetadataReplayPolicy, strict, truncate_tail, MetadataLogError, io, LineCodec,
}
use ganglion.Storage.KeratinLog.{
  OwnedRecord, Keratin, replay, append_raw_entry, read_all_entries, append_entry,
}
use ganglion.Storage.KeratinLog.Scan.{Stores, Ascending, scan-returns}
use ganglion.Storage.KeratinLog.ReadBack.{replay-append, replay-stuck}

-- A payload that is written for an entry is read as that entry.
abbrev pub ReadsPayload : LineCodec → MetadataLogEntry → Type 0
ReadsPayload codec e =
    (payload : Str)
    → codec.print e ≡ some payload
    → codec.parse payload ≡ some (e.term, (e.index, some e.snapshot))

-- The entry that an append gives is read after the entries that it was given after.
replay-next :
    (codec : LineCodec) (policy : FileMetadataReplayPolicy) (entries : List MetadataLogEntry)
    (entry : MetadataLogEntry) (r : OwnedRecord)
    → entry.index ≡ next_index entries
    → next_index entries < u64_max
    → codec.parse r.payload ≡ some (entry.term, (entry.index, some entry.snapshot))
    → replay codec policy entries (r ∷ []) ≡ ok (entries ++ entry ∷ [])
unfolding replay
replay-next codec policy entries entry r i b h = elim (Option-cases (last? entries)) [
  | inl first ↦ ground arith
  | inr (last, ends) ↦ ground arith
]

pub replay-nil :
    (codec : LineCodec) (policy : FileMetadataReplayPolicy) (entries : List MetadataLogEntry)
    → replay codec policy entries [] ≡ ok entries
unfolding replay
replay-nil codec policy entries = refl

module _ {K : Type 0} (keratin : Keratin K) (records : K → List OwnedRecord)
    (stores : Stores keratin records) (codec : LineCodec) where
  -- A read returns, once there is fuel for the records: what their replay gives, or that a scan
  -- failed.
  pub read_all_entries-returns :
      (policy : FileMetadataReplayPolicy) (fuel : ℕ) (k : K)
      → Ascending (records k)
      → length (records k) < fuel
      → (read_all_entries keratin codec policy fuel k ≡ some (err io))
        ⊎ (read_all_entries keratin codec policy fuel k ≡ some (replay codec policy [] (records k)))
  unfolding read_all_entries
  read_all_entries-returns policy fuel k a l =
      elim (scan-returns keratin records stores k a fuel l) [
        | inl failed ↦ inl (ground arith)
        | inr done ↦ inr (ground arith)
      ]

  -- What a read gave is the replay of the records.
  pub replay-of_read :
      (policy : FileMetadataReplayPolicy) (fuel : ℕ) (k : K) (entries : List MetadataLogEntry)
      → Ascending (records k)
      → length (records k) < fuel
      → read_all_entries keratin codec policy fuel k ≡ some (ok entries)
      → replay codec policy [] (records k) ≡ ok entries
  replay-of_read policy fuel k entries a l h = elim (read_all_entries-returns policy fuel k a l) [
    | inl failed ↦ cc
    | inr done ↦ cc
  ]

  -- A refusal of strict replay is not that of a scan where another policy reads.
  replay-of_refused :
      (policy : FileMetadataReplayPolicy) (fuel : ℕ) (k : K) (entries : List MetadataLogEntry)
      (error : MetadataLogError)
      → Ascending (records k)
      → length (records k) < fuel
      → read_all_entries keratin codec strict fuel k ≡ some (err error)
      → read_all_entries keratin codec policy fuel k ≡ some (ok entries)
      → replay codec strict [] (records k) ≡ err error
  unfolding read_all_entries
  replay-of_refused policy fuel k entries error a l h g =
      elim (scan-returns keratin records stores k a fuel l) [
        | inl failed ↦ absurd (ground arith)
        | inr done ↦ ground arith
      ]

  -- An append that succeeds has read what the records replay as.
  reads_too :
      (policy : FileMetadataReplayPolicy) (fuel : ℕ) (k : K) (entries : List MetadataLogEntry)
      (term : ℕ) (snapshot : CoordinationSnapshot) (entry : MetadataLogEntry) (after : K)
      → Ascending (records k)
      → length (records k) < fuel
      → replay codec policy [] (records k) ≡ ok entries
      → append_entry keratin codec policy fuel k term snapshot ≡ some (ok entry, after)
      → read_all_entries keratin codec policy fuel k ≡ some (ok entries)
  unfolding append_entry
  reads_too policy fuel k entries term snapshot entry after a l h w =
      elim (read_all_entries-returns policy fuel k a l) [
        | inl failed ↦ absurd (ground arith)
        | inr done ↦ cc
      ]

  -- An append that succeeds wrote the next entry after those that were read.
  appended :
      (policy : FileMetadataReplayPolicy) (fuel : ℕ) (k after : K) (term : ℕ)
      (snapshot : CoordinationSnapshot) (entry : MetadataLogEntry) (entries : List MetadataLogEntry)
      → read_all_entries keratin codec policy fuel k ≡ some (ok entries)
      → append_entry keratin codec policy fuel k term snapshot ≡ some (ok entry, after)
      → (entry ≡ (Memory.append_entry entries term snapshot).0)
        × ((r : OwnedRecord) × ((codec.print entry ≡ some r.payload)
              × (records after ≡ records k ++ r ∷ [])))
  unfolding append_entry append_raw_entry Memory.append_entry
  appended policy fuel k after term snapshot entry entries h w =
      let made = (Memory.append_entry entries term snapshot).0 in
      elim (Option-cases (codec.print made)) [
        | inl unwritten ↦ absurd (ground arith)
        | inr (payload, written) ↦
            let same : entry ≡ made = ground arith in
            let stored : keratin.append k payload ≡ (true, after) = ground arith in
            let (offset, grown) = stores.records-append k after payload stored in
            (
              same,
              (
                record { offset = offset; payload = payload },
                (ap (λ (e : MetadataLogEntry). codec.print e) same ∙ written, grown),
              ),
            )
      ]

  -- An append to a log that reads without a skipped tail gives the entry that the log in memory
  -- would give, and afterwards the log reads as that in memory would, unless a scan fails. A payload
  -- that is written for this entry can be read back, offsets go up below the largest u64, the next index is below it
  -- too, and each read has fuel for its records.
  pub append_entry-kept :
      (policy : FileMetadataReplayPolicy) (fuel more : ℕ) (k after : K) (term : ℕ)
      (snapshot : CoordinationSnapshot) (entry : MetadataLogEntry) (entries : List MetadataLogEntry)
      → ReadsPayload codec (Memory.append_entry entries term snapshot).0
      → Ascending (records k)
      → Ascending (records after)
      → length (records k) < fuel
      → length (records after) < more
      → next_index entries < u64_max
      → read_all_entries keratin codec strict fuel k ≡ some (ok entries)
      → append_entry keratin codec policy fuel k term snapshot ≡ some (ok entry, after)
      → (entry ≡ (Memory.append_entry entries term snapshot).0)
        × ((read_all_entries keratin codec policy more after ≡ some (err io))
            ⊎ (read_all_entries keratin codec policy more after
                ≡ some (ok (Memory.append_entry entries term snapshot).1)))
  unfolding Memory.append_entry
  append_entry-kept policy fuel more k after term snapshot entry entries back a b l m i h w =
      let clean = replay-of_read strict fuel k entries a l h in
      let same : replay codec policy [] (records k) ≡ ok entries =
        ap (replay codec policy []) (sym (append-nil (records k)))
        ∙ replay-append codec policy (records k) [] [] entries clean
        ∙ replay-nil codec policy entries in
      let (made, (r, (printed, grown))) =
        appended policy fuel k after term snapshot entry entries
          (reads_too policy fuel k entries term snapshot entry after a l same w) w in
      let read : replay codec policy [] (records after) ≡ ok (entries ++ entry ∷ []) =
        ap (replay codec policy []) grown
        ∙ replay-append codec policy (records k) (r ∷ []) [] entries clean
        ∙ replay-next codec policy entries entry r (ap (λ (e : MetadataLogEntry). e.index) made) i
            (subst (ReadsPayload codec) (sym made) back r.payload printed) in
      (
        made,
        elim (read_all_entries-returns policy more after b m) [
          | inl failed ↦ inl failed
          | inr done ↦ inr (cc)
        ],
      )

  -- An append to a log whose malformed tail is skipped is lost: the log goes on to read as before
  -- the append, or not at all, though the append gave its entry.
  pub append_entry-lost :
      (max_tail_lines fuel more : ℕ) (k after : K) (term : ℕ) (snapshot : CoordinationSnapshot)
      (entry : MetadataLogEntry) (entries later : List MetadataLogEntry) (error : MetadataLogError)
      → Ascending (records k)
      → Ascending (records after)
      → length (records k) < fuel
      → length (records after) < more
      → read_all_entries keratin codec strict fuel k ≡ some (err error)
      → read_all_entries keratin codec (truncate_tail max_tail_lines) fuel k ≡ some (ok entries)
      → append_entry keratin codec (truncate_tail max_tail_lines) fuel k term snapshot
        ≡ some (ok entry, after)
      → read_all_entries keratin codec (truncate_tail max_tail_lines) more after ≡ some (ok later)
      → later ≡ entries
  append_entry-lost n fuel more k after term snapshot entry entries later error a b l m h g w r =
      let skipping = replay-of_read (truncate_tail n) fuel k entries a l g in
      let (made, (stored, (printed, grown))) =
        appended (truncate_tail n) fuel k after term snapshot entry entries g w in
      let final = replay-of_read (truncate_tail n) more after later b m r in
      replay-stuck codec n (records k) (stored ∷ []) [] entries later error
        (replay-of_refused (truncate_tail n) fuel k entries error a l h g) skipping
        (ap (replay codec (truncate_tail n) []) (sym grown) ∙ final)
