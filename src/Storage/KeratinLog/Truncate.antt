-- ===== src/Storage/KeratinLog/Truncate.antt =====
-- What a clear and a truncation of the Keratin log leave.
use mathlib.Core.List.{append_assoc, append-nil}
use mathlib.Core.Path.{subst}
use ganglion.Prelude.{
  ℕ, All, ◌+◌, ◌<◌, some, true, List, [], ◌∷◌, ◌++◌, ◌≡◌, sym, ap, ◌∙◌, ◌⊎◌, inl, inr, arith, eqb,
  length, ok, err, Option-cases, Bool-cases, if◌then◌else◌,
}
use ganglion.Storage.MemoryLog.{MetadataLogEntry}
use ganglion.Storage.MemoryLog as Memory
use ganglion.Storage.FileLog.{
  FileMetadataReplayPolicy, strict, truncate_tail, MetadataLogError, io, malformed_record,
  zero_index_record, non_sequential_record, LineCodec, expected_index,
}
use ganglion.Storage.FileLog.Sequence.{IsSequence, ReadsWords, snoc-IsSequence, filter-IsSequence}
use ganglion.Storage.FileLog.RoundTrip.{expected_next}
use ganglion.Storage.KeratinLog.{
  OwnedRecord, KeratinRole, owner, follower, frozen, Keratin, recoverable_tail_error, replay,
  restore_role, switch_to_follower_and_reset, clear, append_raw_entry, append_all, read_all_entries,
  truncate_from,
}
use ganglion.Storage.KeratinLog.Scan.{Stores, Ascending}
use ganglion.Storage.KeratinLog.ReadBack.{replay-append}
use ganglion.Storage.KeratinLog.Append.{
  ReadsPayload, replay-nil, read_all_entries-returns, replay-of_read,
}

recovered :
    (policy : FileMetadataReplayPolicy) (error : MetadataLogError) (n : ℕ)
    (entries result : List MetadataLogEntry)
    → recoverable_tail_error policy error n entries ≡ ok result
    → entries ≡ result
unfolding recoverable_tail_error
recovered strict error n entries result h = cc
recovered (truncate_tail m) error n entries result h = ground arith

-- The entries that records replay as count up by one.
replay-IsSequence :
    (codec : LineCodec) (policy : FileMetadataReplayPolicy) (rs : List OwnedRecord)
    (done entries : List MetadataLogEntry)
    → ReadsWords codec
    → IsSequence done
    → replay codec policy done rs ≡ ok entries
    → IsSequence entries
unfolding replay
replay-IsSequence codec policy [] done entries words s h = subst IsSequence (cc) s
replay-IsSequence codec policy (r ∷ rs) done entries words s h =
    let kept : (error : MetadataLogError)
        → recoverable_tail_error policy error (length rs + 1) done ≡ ok entries
        → IsSequence entries =
      λ error e. subst IsSequence (recovered policy error _ done entries e) s in
    elim (Option-cases (codec.parse r.payload)) [
      | inl malformed ↦ kept (malformed_record r.offset) (ground arith)
      | inr ((term, (index, decoded)), parsed) ↦ elim (Bool-cases (eqb index 0)) [
        | inl zeroth ↦ kept (zero_index_record r.offset) (ground arith)
        | inr positive ↦ elim (Bool-cases (eqb index (expected_index codec done index))) [
          | inr jump ↦
              kept (non_sequential_record r.offset (expected_index codec done index) index)
                (ground arith)
          | inl next ↦ elim (Option-cases decoded) [
            | inl undecoded ↦ absurd (ground arith)
            | inr (snapshot, decodes) ↦
                let entry : MetadataLogEntry = record {
                  term = term;
                  index = index;
                  snapshot = snapshot;
                } in
                replay-IsSequence codec policy rs (done ++ entry ∷ []) entries words
                  (snoc-IsSequence codec done entry s positive
                    (words r.payload term index decoded parsed) next)
                  (ground arith)
          ]
        ]
      ]
    ]

replay-in_sequence :
    (codec : LineCodec) (done rest : List MetadataLogEntry) (entry : MetadataLogEntry)
    (r : OwnedRecord)
    → IsSequence (done ++ entry ∷ rest)
    → codec.parse r.payload ≡ some (entry.term, (entry.index, some entry.snapshot))
    → replay codec strict done (r ∷ []) ≡ ok (done ++ entry ∷ [])
unfolding replay
replay-in_sequence codec done rest entry r s h =
    ground (arith, expected_next codec done entry rest s)

module _ {K : Type 0} (keratin : Keratin K) (records : K → List OwnedRecord)
    (stores : Stores keratin records) where
  records-restore_role :
      (previous : KeratinRole) (k : K) → records (restore_role keratin previous k) ≡ records k
  records-restore_role owner k = (stores.records-roles k).0
  records-restore_role follower k = (stores.records-roles k).1.0
  records-restore_role frozen k = (stores.records-roles k).1.1

  role-restore_role :
      (previous : KeratinRole) (k : K) → keratin.role (restore_role keratin previous k) ≡ previous
  role-restore_role owner k = (stores.role-roles k).0
  role-restore_role follower k = (stores.role-roles k).1.0
  role-restore_role frozen k = (stores.role-roles k).1.1

  records-reset :
      (k : K)
      → (switch_to_follower_and_reset keratin k 0).0 ≡ ok tt
      → records (switch_to_follower_and_reset keratin k 0).1 ≡ []
  unfolding switch_to_follower_and_reset
  records-reset k h =
      let after = (keratin.destructive_reset_to_checkpoint (keratin.become_follower k) 0).1 in
      records-restore_role (keratin.role k) after
      ∙ stores.records-reset (keratin.become_follower k) after 0 (ground arith)

  -- A clear ends in the role that it began in, whether it succeeds or not, and one that succeeds
  -- stores nothing.
  clear-kept :
      (k : K)
      → (keratin.role (clear keratin k).1 ≡ keratin.role k)
        × ((clear keratin k).0 ≡ ok tt → records (clear keratin k).1 ≡ [])
  unfolding clear switch_to_follower_and_reset
  clear-kept k =
      let after = (keratin.destructive_reset_to_checkpoint (keratin.become_follower k) 0).1 in
      (role-restore_role (keratin.role k) after, λ h. records-reset k h)

  module _ (codec : LineCodec) where
    replay-append_all :
        (entries done : List MetadataLogEntry) (k after : K)
        → All (ReadsPayload codec) entries
        → replay codec strict [] (records k) ≡ ok done
        → IsSequence (done ++ entries)
        → append_all keratin codec k entries ≡ (ok tt, after)
        → replay codec strict [] (records after) ≡ ok (done ++ entries)
    unfolding append_all append_raw_entry
    replay-append_all [] done k after back h s w =
        subst (λ (j : K). replay codec strict [] (records j) ≡ ok (done ++ [])) (cc)
          (h ∙ ap ok (sym (append-nil done)))
    replay-append_all (e ∷ entries) done k after back h s w = elim (Option-cases (codec.print e)) [
      | inl unwritten ↦ absurd (ground arith)
      | inr (payload, written) ↦
          let middle = (keratin.append k payload).1 in
          let stored : keratin.append k payload ≡ (true, middle) = ground arith in
          let (offset, grown) = stores.records-append k middle payload stored in
          let r : OwnedRecord = record { offset = offset; payload = payload } in
          let whole = append_assoc done (e ∷ []) entries in
          replay-append_all entries (done ++ e ∷ []) middle after back.1
            (ap (replay codec strict []) grown
              ∙ replay-append codec strict (records k) (r ∷ []) [] done h
              ∙ replay-in_sequence codec done entries e r s (back.0 payload written))
            (subst IsSequence (sym whole) s) (ground arith)
          ∙ ap ok whole
    ]

    -- A truncation that succeeds, of a log that read as some entries, leaves a log that reads as
    -- that in memory would, without a skipped tail, unless a scan fails. The payloads that
    -- are written for its entries can be read back, indices are read as u64, offsets go up below the largest u64, and each read has
    -- fuel for its records.
    truncate_from-kept :
        (policy : FileMetadataReplayPolicy) (fuel more : ℕ) (k after : K) (first_index : ℕ)
        (entries : List MetadataLogEntry)
        → ReadsWords codec
        → All (ReadsPayload codec) (Memory.truncate_from entries first_index)
        → Ascending (records k)
        → Ascending (records after)
        → length (records k) < fuel
        → length (records after) < more
        → read_all_entries keratin codec policy fuel k ≡ some (ok entries)
        → truncate_from keratin codec policy fuel k first_index ≡ some (ok tt, after)
        → (read_all_entries keratin codec strict more after ≡ some (err io))
          ⊎ (read_all_entries keratin codec strict more after
              ≡ some (ok (Memory.truncate_from entries first_index)))
    unfolding truncate_from Memory.truncate_from
    truncate_from-kept policy fuel more k after first_index entries words back a b l m h w =
        let first = if eqb first_index 0 then 1 else first_index in
        let kept = Memory.truncate_from entries first_index in
        let read = replay-of_read keratin records stores codec policy fuel k entries a l h in
        let s : IsSequence kept =
          filter-IsSequence first entries
            (replay-IsSequence codec policy (records k) [] entries words tt read) in
        let (result, reset) = switch_to_follower_and_reset keratin k 0 in
        let cleared : result ≡ ok tt = ground arith in
        let appended : append_all keratin codec reset kept ≡ (ok tt, after) = ground arith in
        let final =
          replay-append_all kept [] reset after back
            (ap (replay codec strict []) (records-reset k cleared) ∙ replay-nil codec strict []) s
            appended in
        elim (read_all_entries-returns keratin records stores codec strict more after b m) [
          | inl failed ↦ inl failed
          | inr done ↦ inr (done ∙ ap some final)
        ]
