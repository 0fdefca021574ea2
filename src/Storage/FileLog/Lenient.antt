-- ===== src/Storage/FileLog/Lenient.antt =====
-- The replay policies of `FileMetadataLog` beside each other.
use ganglion.Prelude.{
  ℕ, ◌+◌, Option, some, none, List, [], ◌∷◌, ◌++◌, ◌≡◌, arith, eqb, ok, Option-cases, Bool-cases,
  inl, inr,
}
use ganglion.Core.Model.{Str}
use ganglion.Storage.MemoryLog.{MetadataLogEntry}
use ganglion.Storage.FileLog.{
  FileMetadataReplayPolicy, strict, LineCodec, is_skipped, expected_index, read_lines,
  read_all_entries,
}

module _ (codec : LineCodec) (policy : FileMetadataReplayPolicy) where
  read_lines-strict :
      (lines : List Str) (entries : List MetadataLogEntry) (n : ℕ) (result : List MetadataLogEntry)
      → read_lines codec strict entries n lines ≡ ok result
      → read_lines codec policy entries n lines ≡ ok result
  unfolding read_lines ganglion.Storage.FileLog.recoverable_tail_error
  read_lines-strict [] entries n result h = h
  read_lines-strict (line ∷ rest) entries n result h =
      elim (Bool-cases (is_skipped (codec.trim line))) [
        | inl skipped ↦ ground (arith, read_lines-strict rest entries (n + 1) result)
        | inr text ↦ elim (Option-cases (codec.parse (codec.trim line))) [
          | inl malformed ↦ absurd (ground arith)
          | inr ((term, (index, decoded)), parsed) ↦ elim (Bool-cases (eqb index 0)) [
            | inl zeroth ↦ absurd (ground arith)
            | inr positive ↦ elim (Bool-cases (eqb index (expected_index codec entries index))) [
              | inr jump ↦ absurd (ground arith)
              | inl next ↦ elim (Option-cases decoded) [
                | inl undecoded ↦ absurd (ground arith)
                | inr (snapshot, decodes) ↦
                    let entry : MetadataLogEntry = record {
                      term = term;
                      index = index;
                      snapshot = snapshot;
                    } in
                    let others =
                      read_lines-strict rest (entries ++ entry ∷ []) (n + 1) result
                        (ground arith) in
                    ground arith
              ]
            ]
          ]
        ]
      ]

  -- A file that reads without an error under the strict policy reads the same under any other.
  pub read_all_entries-strict :
      (file : Option (List Str)) (result : List MetadataLogEntry)
      → read_all_entries codec strict file ≡ ok result
      → read_all_entries codec policy file ≡ ok result
  unfolding read_all_entries
  read_all_entries-strict none result h = h
  read_all_entries-strict (some lines) result h =
      ground (arith, read_lines-strict lines [] 0 result)
