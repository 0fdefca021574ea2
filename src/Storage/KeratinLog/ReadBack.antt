-- ===== src/Storage/KeratinLog/ReadBack.antt =====
-- What the Keratin log reads back after an append.
use ganglion.Prelude.{ℕ, List, [], ◌∷◌, ◌++◌, ◌≡◌, ap, inl, inr, arith, ok, err, Option-cases}
use ganglion.Storage.MemoryLog.{MetadataLogEntry}
use ganglion.Storage.FileLog.{
  FileMetadataReplayPolicy, strict, truncate_tail, MetadataLogError, LineCodec,
}
use ganglion.Storage.KeratinLog.{OwnedRecord, recoverable_tail_error, replay}

module _ (codec : LineCodec) where
  -- Records that strict replay reads are read alike under any policy, and the replay goes on with
  -- what follows them.
  pub replay-append :
      (policy : FileMetadataReplayPolicy) (rs more : List OwnedRecord)
      (done entries : List MetadataLogEntry)
      → replay codec strict done rs ≡ ok entries
      → replay codec policy done (rs ++ more) ≡ replay codec policy entries more
  unfolding replay recoverable_tail_error
  replay-append policy [] more done entries h = ap (λ es. replay codec policy es more) (cc)
  replay-append policy (r ∷ rs) more done entries h = elim (Option-cases (codec.parse r.payload)) [
    | inl malformed ↦ absurd (ground arith)
    | inr ((term, (index, decoded)), parsed) ↦ elim (Option-cases decoded) [
      | inl undecoded ↦ absurd (ground arith)
      | inr (snapshot, decodes) ↦
          let entry : MetadataLogEntry = record {
            term = term;
            index = index;
            snapshot = snapshot;
          } in
          ground (arith, replay-append policy rs more (done ++ entry ∷ []) entries)
    ]
  ]

  -- Records that strict replay refuses are read alike, up to the length of the tail, whatever
  -- follows them.
  pub replay-stuck :
      (m : ℕ) (rs more : List OwnedRecord) (done entries after : List MetadataLogEntry)
      (error : MetadataLogError)
      → replay codec strict done rs ≡ err error
      → replay codec (truncate_tail m) done rs ≡ ok entries
      → replay codec (truncate_tail m) done (rs ++ more) ≡ ok after
      → after ≡ entries
  unfolding replay recoverable_tail_error
  replay-stuck m [] more done entries after error h k l = cc
  replay-stuck m (r ∷ rs) more done entries after error h k l =
      elim (Option-cases (codec.parse r.payload)) [
        | inl malformed ↦ ground arith
        | inr ((term, (index, decoded)), parsed) ↦ elim (Option-cases decoded) [
          | inl undecoded ↦ ground arith
          | inr (snapshot, decodes) ↦
              let entry : MetadataLogEntry = record {
                term = term;
                index = index;
                snapshot = snapshot;
              } in
              ground (arith, replay-stuck m rs more (done ++ entry ∷ []) entries after error)
        ]
      ]
