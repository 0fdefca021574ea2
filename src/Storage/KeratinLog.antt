-- ===== src/Storage/KeratinLog.antt =====
-- `KeratinMetadataLog` of `crates/ganglion-storage/src/lib.rs`. The crate `keratin_log` is a record
-- of the calls that the code makes on it; `serde_json` and the conversion of a snapshot are those of
-- a `LineCodec`, whose `trim` has no part here, since a payload is read as it is.
pub mod Scan
mod ReadBack
pub mod Append
pub mod Truncate
mod Tests
use ganglion.Prelude.{
  ℕ, zero, suc, ◌+◌, Option, some, none, Bool, true, false, List, [], ◌∷◌, ◌++◌, leb, eqb, length,
  if◌then◌else◌, saturating_add, last?, filter, Result, ok, err,
}
use ganglion.Core.Model.{Str, CoordinationSnapshot}
use ganglion.Storage.MemoryLog.{MetadataLogEntry, next_index}
use ganglion.Storage.FileLog.{
  FileMetadataReplayPolicy, strict, truncate_tail, MetadataLogError, io, malformed_record,
  zero_index_record, non_sequential_record, malformed_snapshot, not_encoded, LineCodec,
  expected_index,
}

-- `OwnedRecord`, of which the code reads two fields.
pub record OwnedRecord : Type 0 where
  pub offset : ℕ
  pub payload : Str

pub data KeratinRole : Type 0 where
  owner follower frozen : KeratinRole

-- The calls on a `Keratin` with its state passed on. A scan from an offset takes the greatest
-- number of records that it may return; an append and a reset return whether they succeeded.
pub record Keratin (K : Type 0) : Type 0 where
  pub scan_from : K → ℕ → ℕ → Option (List OwnedRecord)
  pub append : K → Str → Bool × K
  pub role : K → KeratinRole
  pub become_owner : K → K
  pub become_follower : K → K
  pub freeze : K → K
  pub destructive_reset_to_checkpoint : K → ℕ → Bool × K

abbrev pub Entries : Type 0
Entries = Result MetadataLogError (List MetadataLogEntry)

-- `recoverable_tail_error`
unfoldable pub recoverable_tail_error :
    FileMetadataReplayPolicy → MetadataLogError → ℕ → List MetadataLogEntry → Entries
recoverable_tail_error strict error skipped_tail_records entries = err error
recoverable_tail_error (truncate_tail max_tail_lines) error skipped_tail_records entries =
    if leb skipped_tail_records max_tail_lines then ok entries else err error

module _ (codec : LineCodec) where
  -- The loop of `read_all_entries` over the records.
  unfoldable pub replay :
      FileMetadataReplayPolicy → List MetadataLogEntry → List OwnedRecord → Entries
  unfolding recoverable_tail_error
  replay policy entries [] = ok entries
  replay policy entries (record_at ∷ rest) =
      let skipped_tail_records = length rest + 1 in
      elim (codec.parse record_at.payload) [
        | none ↦
            recoverable_tail_error policy (malformed_record record_at.offset) skipped_tail_records
              entries
        | some (term, (index, decoded)) ↦ elim (eqb index 0) [
          | true ↦
              recoverable_tail_error policy (zero_index_record record_at.offset)
                skipped_tail_records entries
          | false ↦ elim (eqb index (expected_index codec entries index)) [
            | false ↦
                recoverable_tail_error policy
                  (non_sequential_record record_at.offset (expected_index codec entries index)
                    index)
                  skipped_tail_records entries
            | true ↦ elim decoded [
              | none ↦ err malformed_snapshot
              | some snapshot ↦
                  replay policy
                    (entries ++ record { term = term; index = index; snapshot = snapshot } ∷ [])
                    rest
            ]
          ]
        ]
      ]

module _ {K : Type 0} (keratin : Keratin K) where
  -- The loop of `read_all_entries` that scans, with fuel for its turns; `none` is out of fuel.
  unfoldable pub scan :
      K → ℕ → ℕ → List OwnedRecord → Option (Result MetadataLogError (List OwnedRecord))
  scan k zero cursor records = none
  scan k (suc fuel) cursor records = elim (keratin.scan_from k cursor 256) [
    | none ↦ some (err io)
    | some batch ↦ elim (last? batch) [
      | none ↦ some (ok records)
      | some last ↦ scan k fuel (saturating_add last.offset 1) (records ++ batch)
    ]
  ]

  abbrev pub restore_role : KeratinRole → K → K
  restore_role owner k = keratin.become_owner k
  restore_role follower k = keratin.become_follower k
  restore_role frozen k = keratin.freeze k

  unfoldable pub switch_to_follower_and_reset : K → ℕ → Result MetadataLogError (Unit {0}) × K
  switch_to_follower_and_reset k next_offset =
      let previous_role = keratin.role k in
      let (done, after) =
        keratin.destructive_reset_to_checkpoint (keratin.become_follower k) next_offset in
      (if done then ok tt else err io, restore_role previous_role after)

  unfoldable pub clear : K → Result MetadataLogError (Unit {0}) × K
  unfolding switch_to_follower_and_reset
  clear k = switch_to_follower_and_reset k 0

  module _ (codec : LineCodec) where
    unfoldable pub append_raw_entry :
        K → MetadataLogEntry → Result MetadataLogError MetadataLogEntry × K
    append_raw_entry k entry = elim (codec.print entry) [
      | none ↦ (err not_encoded, k)
      | some payload ↦
          let (done, after) = keratin.append k payload in (if done then ok entry else err io, after)
    ]

    -- The loop of `truncate_from`, which stops at the first error.
    unfoldable pub append_all : K → List MetadataLogEntry → Result MetadataLogError (Unit {0}) × K
    unfolding append_raw_entry
    append_all k [] = (ok tt, k)
    append_all k (entry ∷ entries) =
        let (result, after) = append_raw_entry k entry in
        elim result [ err e ↦ (err e, after) | ok done ↦ append_all after entries ]

    module _ (policy : FileMetadataReplayPolicy) (fuel : ℕ) where
      unfoldable pub read_all_entries : K → Option Entries
      unfolding scan replay
      read_all_entries k = elim (scan k fuel 0 []) [
        | none ↦ none
        | some (err e) ↦ some (err e)
        | some (ok records) ↦ some (replay codec policy [] records)
      ]

      unfoldable pub latest_entry : K → Option (Result MetadataLogError (Option MetadataLogEntry))
      unfolding read_all_entries
      latest_entry k = elim (read_all_entries k) [
        | none ↦ none
        | some (err e) ↦ some (err e)
        | some (ok entries) ↦ some (ok (last? entries))
      ]

      unfoldable pub append_entry :
          K → ℕ → CoordinationSnapshot → Option (Result MetadataLogError MetadataLogEntry × K)
      unfolding read_all_entries append_raw_entry
      append_entry k term snapshot = elim (read_all_entries k) [
        | none ↦ none
        | some (err e) ↦ some (err e, k)
        | some (ok entries) ↦ some (
            append_raw_entry k
              (record { term = term; index = next_index entries; snapshot = snapshot }))
      ]

      unfoldable pub truncate_from : K → ℕ → Option (Result MetadataLogError (Unit {0}) × K)
      unfolding read_all_entries switch_to_follower_and_reset append_all
      truncate_from k first_index = elim (read_all_entries k) [
        | none ↦ none
        | some (err e) ↦ some (err e, k)
        | some (ok entries) ↦
            let first = if eqb first_index 0 then 1 else first_index in
            let kept = filter (λ entry. leb first entry.index) entries in
            let (reset, after) = switch_to_follower_and_reset k 0 in
            some (elim reset [ err e ↦ (err e, after) | ok done ↦ append_all after kept ])
      ]
