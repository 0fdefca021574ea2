-- ===== src/Storage/FileLog/Sequence.antt =====
-- The indices of the entries that a file gives.
use mathlib.Core.Path.{subst, sym}
use ganglion.Prelude.{
  ℕ, ◌+◌, ◌≤◌, ◌<◌, Option, some, none, true, false, List, [], ◌∷◌, ◌++◌, ◌≡◌, refl, arith, leb,
  eqb, u64_max, filter, ok, Bool-cases, Option-cases, inl, inr,
}
use ganglion.Core.Model.{Str, CoordinationSnapshot}
use ganglion.Storage.MemoryLog.{MetadataLogEntry}
use ganglion.Storage.FileLog.{
  FileMetadataReplayPolicy, strict, truncate_tail, MetadataLogError, malformed_line, zero_index,
  non_sequential, LineCodec, count_lines, is_skipped, expected_index, recoverable_tail_error,
  read_lines, read_all_entries,
}

-- Indices count up by one from the first, within a `u64` and above zero.
abbrev pub IsSequence : List MetadataLogEntry → Type 0
IsSequence [] = Unit
IsSequence (e ∷ []) = (0 < e.index) × (e.index ≤ u64_max)
IsSequence (e ∷ f ∷ entries) =
    ((0 < e.index) × (e.index ≤ u64_max)) × ((f.index ≡ e.index + 1) × IsSequence (f ∷ entries))

-- A `u64` field of a line is read as a `u64`.
abbrev pub ReadsWords : LineCodec → Type 0
ReadsWords codec =
    (line : Str) (term index : ℕ) (decoded : Option CoordinationSnapshot)
    → codec.parse line ≡ some (term, (index, decoded))
    → index ≤ u64_max

pub snoc-IsSequence :
    (codec : LineCodec) (entries : List MetadataLogEntry) (e : MetadataLogEntry)
    → IsSequence entries
    → eqb e.index 0 ≡ false
    → e.index ≤ u64_max
    → eqb e.index (expected_index codec entries e.index) ≡ true
    → IsSequence (entries ++ e ∷ [])
snoc-IsSequence codec [] e s n u h = ground arith
snoc-IsSequence codec (d ∷ []) e s n u h = ground arith
snoc-IsSequence codec (d ∷ f ∷ entries) e s n u h =
    (s.0, (s.1.0, snoc-IsSequence codec (f ∷ entries) e s.1.1 n u h))

module _ (codec : LineCodec) where
  recovered :
      (policy : FileMetadataReplayPolicy) (error : MetadataLogError) (n : ℕ)
      (entries result : List MetadataLogEntry)
      → recoverable_tail_error codec policy error n entries ≡ ok result
      → entries ≡ result
  unfolding recoverable_tail_error
  recovered strict error n entries result h = cc
  recovered (truncate_tail m) error n entries result h = ground arith

-- What every entry of a file leaves true of the entries read so far is true of the result.
module _ (codec : LineCodec) (policy : FileMetadataReplayPolicy)
    (P : List MetadataLogEntry → Type 0)
    (step : (entries : List MetadataLogEntry) (line : Str) (e : MetadataLogEntry)
      → P entries
      → codec.parse line ≡ some (e.term, (e.index, some e.snapshot))
      → eqb e.index 0 ≡ false
      → eqb e.index (expected_index codec entries e.index) ≡ true
      → P (entries ++ e ∷ [])) where
  read_lines-keeps :
      (lines : List Str) (entries : List MetadataLogEntry) (n : ℕ) (result : List MetadataLogEntry)
      → P entries
      → read_lines codec policy entries n lines ≡ ok result
      → P result
  unfolding read_lines
  read_lines-keeps [] entries n result s h = subst P (ground arith) s
  read_lines-keeps (line ∷ rest) entries n result s h =
      let kept : (error : MetadataLogError)
          → recoverable_tail_error codec policy error (count_lines codec rest + 1) entries
            ≡ ok result
          → P result =
        λ error r. subst P (recovered codec policy error _ entries result r) s in
      elim (Bool-cases (is_skipped (codec.trim line))) [
        | inl skipped ↦ read_lines-keeps rest entries (n + 1) result s (ground arith)
        | inr text ↦ elim (Option-cases (codec.parse (codec.trim line))) [
          | inl malformed ↦ kept (malformed_line (n + 1)) (ground arith)
          | inr ((term, (index, decoded)), parsed) ↦ elim (Bool-cases (eqb index 0)) [
            | inl zeroth ↦ kept (zero_index (n + 1)) (ground arith)
            | inr positive ↦ elim (Bool-cases (eqb index (expected_index codec entries index))) [
              | inr jump ↦
                  kept (non_sequential (n + 1) (expected_index codec entries index) index)
                    (ground arith)
              | inl next ↦ elim (Option-cases decoded) [
                | inl undecoded ↦ absurd (ground arith)
                | inr (snapshot, decodes) ↦
                    let entry : MetadataLogEntry = record {
                      term = term;
                      index = index;
                      snapshot = snapshot;
                    } in
                    read_lines-keeps rest (entries ++ entry ∷ []) (n + 1) result
                      (step entries (codec.trim line) entry s (ground arith) positive next)
                      (ground arith)
              ]
            ]
          ]
        ]
      ]

  pub read_all_entries-keeps :
      (file : Option (List Str)) (entries : List MetadataLogEntry)
      → P []
      → read_all_entries codec policy file ≡ ok entries
      → P entries
  unfolding read_all_entries
  read_all_entries-keeps none entries s h = subst P {x = []} (ground arith) s
  read_all_entries-keeps (some lines) entries s h =
      read_lines-keeps lines [] 0 entries s (ground arith)

module _ (codec : LineCodec) (words : ReadsWords codec) (policy : FileMetadataReplayPolicy) where
  -- Under either policy, the entries that a file gives have positive indices that count up by
  -- one, if indices are read as u64.
  pub read_all_entries-IsSequence :
      (file : Option (List Str)) (entries : List MetadataLogEntry)
      → read_all_entries codec policy file ≡ ok entries
      → IsSequence entries
  read_all_entries-IsSequence file entries =
      read_all_entries-keeps codec policy IsSequence
        (λ es line e s parsed positive next.
          snoc-IsSequence codec es e s positive (words line e.term e.index (some e.snapshot) parsed)
            next)
        file entries tt

filter_all :
    (first : ℕ) (e : MetadataLogEntry) (entries : List MetadataLogEntry)
    → IsSequence (e ∷ entries)
    → leb first e.index ≡ true
    → filter (λ d. leb first d.index) (e ∷ entries) ≡ e ∷ entries
filter_all first e [] s h = rw h refl
filter_all first e (f ∷ entries) s h = rw (h, filter_all first f entries s.1.1 (ground arith)) refl

-- A suffix by index of a sequence is a sequence.
pub filter-IsSequence :
    (first : ℕ) (entries : List MetadataLogEntry)
    → IsSequence entries
    → IsSequence (filter (λ d. leb first d.index) entries)
filter-IsSequence first [] s = tt
filter-IsSequence first (e ∷ []) s = ground arith
filter-IsSequence first (e ∷ f ∷ entries) s = elim (Bool-cases (leb first e.index)) [
  | inl kept ↦ subst IsSequence (sym (filter_all first e (f ∷ entries) s kept)) s
  | inr dropped ↦ rw dropped (filter-IsSequence first (f ∷ entries) s.1.1)
]
