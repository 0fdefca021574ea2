-- ===== src/Storage/FileLog.antt =====
-- `FileMetadataLog` of `crates/ganglion-storage/src/lib.rs`. The file is its lines, none when it is
-- not there. `serde_json` on a persisted entry with the conversion of the resource keys, which
-- `Storage.Persisted` gives, `str::trim` and what is UTF-8 are parameters; how far a write gets is chosen by the
-- environment.
pub mod Sequence
pub mod RoundTrip
pub mod Lenient
use ganglion.Prelude.{
  ℕ, zero, suc, ◌+◌, Option, some, none, Bool, true, false, List, [], ◌∷◌, ◌++◌, leb, eqb, not,
  ◌&&◌, ◌||◌, length, if◌then◌else◌, wrapping_add, saturating_add, last?, filter, take, Result, ok,
  err,
}
use ganglion.Core.Model.{Str, CoordinationSnapshot}
use ganglion.Storage.MemoryLog.{MetadataLogEntry, next_index}

pub data FileMetadataReplayPolicy : Type 0 where
  strict : FileMetadataReplayPolicy
  truncate_tail : ℕ → FileMetadataReplayPolicy

-- The errors by their cause, with the line number or record offset that the message names.
pub data MetadataLogError : Type 0 where
  io : MetadataLogError
  malformed_line : ℕ → MetadataLogError
  zero_index : ℕ → MetadataLogError
  non_sequential : ℕ → ℕ → ℕ → MetadataLogError
  malformed_snapshot : MetadataLogError
  malformed_record zero_index_record : ℕ → MetadataLogError
  non_sequential_record : ℕ → ℕ → ℕ → MetadataLogError
  not_encoded : MetadataLogError

-- `PersistedMetadataLogEntry` as `serde_json` reads it from a line, with the result of
-- `decode_snapshot`; and the line that is written for an entry, if it can be.
pub record LineCodec : Type 0 where
  pub valid_utf8 : Str → Bool
  pub trim : Str → Str
  pub parse : Str → Option (ℕ × (ℕ × Option CoordinationSnapshot))
  pub print : MetadataLogEntry → Option Str

-- How `write_entries` ends. `File::create` empties the file before any line is written, so a write
-- that stops leaves whatever it got to.
pub data FileWrite : Type 0 where
  complete not_created : FileWrite
  stopped : List Str → FileWrite

-- The byte of `#`.
abbrev hash : ℕ
hash = 35

-- A line that is empty after `trim`, or a comment.
abbrev pub is_skipped : Str → Bool
is_skipped [] = true
is_skipped (c ∷ cs) = eqb c hash

module _ (codec : LineCodec) where
  pub count_lines : List Str → ℕ
  count_lines [] = 0
  count_lines (line ∷ rest) =
      let others = count_lines rest in if is_skipped (codec.trim line) then others else others + 1

  -- `recoverable_tail_error`
  pub recoverable_tail_error :
      FileMetadataReplayPolicy
      → MetadataLogError
      → ℕ
      → List MetadataLogEntry
      → Result MetadataLogError (List MetadataLogEntry)
  recoverable_tail_error strict error skipped_tail_lines entries = err error
  recoverable_tail_error (truncate_tail max_tail_lines) error skipped_tail_lines entries =
      if leb skipped_tail_lines max_tail_lines then ok entries else err error

  abbrev pub expected_index : List MetadataLogEntry → ℕ → ℕ
  expected_index entries index = elim (last? entries) [
    | none ↦ index
    | some entry ↦ wrapping_add entry.index 1
  ]

  -- The loop of `read_all_entries`, at the line with offset `line_offset`.
  pub read_lines :
      FileMetadataReplayPolicy
      → List MetadataLogEntry
      → ℕ
      → List Str
      → Result MetadataLogError (List MetadataLogEntry)
  unfolding count_lines recoverable_tail_error
  read_lines policy entries line_offset [] = ok entries
  read_lines policy entries line_offset (line ∷ rest) =
      let line_no = line_offset + 1 in
      let tail = count_lines rest + 1 in
      elim (is_skipped (codec.trim line)) [
        | true ↦ read_lines policy entries line_no rest
        | false ↦ elim (codec.parse (codec.trim line)) [
          | none ↦ recoverable_tail_error policy (malformed_line line_no) tail entries
          | some (term, (index, decoded)) ↦ elim (eqb index 0) [
            | true ↦ recoverable_tail_error policy (zero_index line_no) tail entries
            | false ↦ elim (eqb index (expected_index entries index)) [
              | false ↦
                  recoverable_tail_error policy
                    (non_sequential line_no (expected_index entries index) index) tail entries
              | true ↦ elim decoded [
                | none ↦ err malformed_snapshot
                | some snapshot ↦
                    read_lines policy
                      (entries ++ record { term = term; index = index; snapshot = snapshot } ∷ [])
                      line_no rest
              ]
            ]
          ]
        ]
      ]

  -- Whether every line is text, which `lines` asks of them before the loop.
  abbrev pub all_valid : List Str → Bool
  all_valid [] = true
  all_valid (line ∷ rest) = codec.valid_utf8 line && all_valid rest

  -- `read_all_entries` on the content of the file.
  unfoldable pub read_all_entries :
      FileMetadataReplayPolicy → Option (List Str) → Result MetadataLogError (List MetadataLogEntry)
  unfolding read_lines
  read_all_entries policy none = ok []
  read_all_entries policy (some lines) =
      if all_valid lines then read_lines policy [] 0 lines else err io

  -- The lines that the loop of `write_entries` prints before the first that it cannot.
  pub print_entries : List MetadataLogEntry → Bool × List Str
  print_entries [] = (true, [])
  print_entries (entry ∷ entries) = elim (codec.print entry) [
    | none ↦ (false, [])
    | some line ↦ let (printed, lines) = print_entries entries in (printed, line ∷ lines)
  ]

  -- `write_entries`, and the file after it. An entry that cannot be printed ends it.
  unfoldable pub write_entries :
      FileWrite
      → Option (List Str)
      → List MetadataLogEntry
      → Result MetadataLogError (Unit {0}) × Option (List Str)
  unfolding print_entries
  write_entries complete file entries =
      let (printed, lines) = print_entries entries in
      (if printed then ok tt else err not_encoded, some lines)
  write_entries not_created file entries = (err io, file)
  write_entries (stopped part) file entries = (err io, some part)

  unfoldable pub append_entry :
      FileMetadataReplayPolicy
      → FileWrite
      → Option (List Str)
      → ℕ
      → CoordinationSnapshot
      → Result MetadataLogError MetadataLogEntry × Option (List Str)
  unfolding read_all_entries write_entries
  append_entry policy write file term snapshot = elim (read_all_entries policy file) [
    | err e ↦ (err e, file)
    | ok entries ↦
        let entry : MetadataLogEntry = record {
          term = term;
          index = next_index entries;
          snapshot = snapshot;
        } in
        let (written, after) = write_entries write file (entries ++ entry ∷ []) in
        (elim written [ err e ↦ err e | ok _ ↦ ok entry ], after)
  ]

  unfoldable pub clear :
      FileWrite → Option (List Str) → Result MetadataLogError (Unit {0}) × Option (List Str)
  unfolding write_entries
  clear write file = write_entries write file []

  unfoldable pub truncate_from :
      FileMetadataReplayPolicy
      → FileWrite
      → Option (List Str)
      → ℕ
      → Result MetadataLogError (Unit {0}) × Option (List Str)
  unfolding read_all_entries write_entries
  truncate_from policy write file first_index = elim (read_all_entries policy file) [
    | err e ↦ (err e, file)
    | ok entries ↦
        let first = if eqb first_index 0 then 1 else first_index in
        write_entries write file (filter (λ entry. leb first entry.index) entries)
  ]
