-- ===== src/Storage/MemoryLog.antt =====
-- `InMemoryMetadataLog` of `crates/ganglion-storage/src/lib.rs`. The lock is taken for the whole of
-- each call and is never poisoned, since no call panics.
use ganglion.Prelude.{
  ℕ, Option, some, none, List, [], ◌∷◌, ◌++◌, leb, eqb, if◌then◌else◌, saturating_add, last?,
  filter,
}
use ganglion.Core.Model.{CoordinationSnapshot}

pub record MetadataLogEntry : Type 0 where
  pub term : ℕ
  pub index : ℕ
  pub snapshot : CoordinationSnapshot

-- The index of the next entry.
abbrev pub next_index : List MetadataLogEntry → ℕ
next_index entries = elim (last? entries) [ none ↦ 1 | some entry ↦ saturating_add entry.index 1 ]

unfoldable pub append_entry :
    List MetadataLogEntry → ℕ → CoordinationSnapshot → MetadataLogEntry × List MetadataLogEntry
append_entry entries term snapshot =
    let entry : MetadataLogEntry = record {
      term = term;
      index = next_index entries;
      snapshot = snapshot;
    } in
    (entry, entries ++ entry ∷ [])

unfoldable pub latest_entry : List MetadataLogEntry → Option MetadataLogEntry
latest_entry entries = last? entries

unfoldable pub clear : List MetadataLogEntry → List MetadataLogEntry
clear entries = []

unfoldable pub truncate_from : List MetadataLogEntry → ℕ → List MetadataLogEntry
truncate_from entries first_index =
    let first = if eqb first_index 0 then 1 else first_index in
    filter (λ entry. leb first entry.index) entries
