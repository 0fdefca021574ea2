-- ===== src/Storage/Samples.antt =====
-- A sample codec for the lines of a metadata log: a leading one, the term, the index, and a snapshot
-- that is empty but for its generation.
use mathlib.Core.Path.{subst}
use ganglion.BTreeMap.Sorted.{IsSorted}
use ganglion.Prelude.{
  ℕ, true, Option, some, none, [], ◌∷◌, refl, sym, ◌≡◌, arith, leb, u64_max, if◌then◌else◌,
  Option-cases, inl, inr,
}
use ganglion.Core.Model.{Str, resource_ord, CoordinationSnapshot}
use ganglion.Storage.MemoryLog.{MetadataLogEntry}
use ganglion.Storage.FileLog.{LineCodec}
use ganglion.Storage.FileLog.Sequence.{ReadsWords}
use ganglion.Storage.FileLog.RoundTrip.{ReadsBack, ReadsOrdered}
use ganglion.Openraft.Samples.{state_codec, state_codec-RoundTrips}

abbrev parse_line : Str → Option (ℕ × (ℕ × Option CoordinationSnapshot))
parse_line (tag ∷ term ∷ index ∷ bytes) =
    if leb index u64_max then some (term, (index, state_codec.from_slice bytes)) else none
parse_line _ = none

abbrev print_line : MetadataLogEntry → Option Str
print_line e = elim (state_codec.to_vec e.snapshot) [
  | none ↦ none
  | some bytes ↦ if leb e.index u64_max then some (1 ∷ e.term ∷ e.index ∷ bytes) else none
]

abbrev pub line_codec : LineCodec
line_codec = record {
  valid_utf8 = λ line. true;
  trim = λ line. line;
  parse = parse_line;
  print = print_line;
}

pub line_codec-ReadsWords : ReadsWords line_codec
line_codec-ReadsWords [] term index decoded h = cc
line_codec-ReadsWords (_ ∷ []) term index decoded h = cc
line_codec-ReadsWords (_ ∷ _ ∷ []) term index decoded h = cc
line_codec-ReadsWords (tag ∷ t ∷ i ∷ bytes) term index decoded h = ground arith

pub line_codec-ReadsBack : ReadsBack line_codec
line_codec-ReadsBack e ordered line h = elim (Option-cases (state_codec.to_vec e.snapshot)) [
  | inl unwritten ↦ absurd (ground arith)
  | inr (bytes, written) ↦
      (refl, (ground arith, ground (arith, state_codec-RoundTrips e.snapshot bytes written)))
]

pub line_codec-ReadsOrdered : ReadsOrdered line_codec
line_codec-ReadsOrdered [] term index snapshot h = cc
line_codec-ReadsOrdered (_ ∷ []) term index snapshot h = cc
line_codec-ReadsOrdered (_ ∷ _ ∷ []) term index snapshot h = cc
line_codec-ReadsOrdered (tag ∷ t ∷ i ∷ bytes) term index snapshot h =
    let read : state_codec.from_slice bytes ≡ some snapshot = ground arith in
    subst IsSorted (sym (empty bytes snapshot read)) tt
  where
    empty :
        (bytes : Str) (s : CoordinationSnapshot)
        → state_codec.from_slice bytes ≡ some s
        → s.assignments ≡ []
    empty (generation ∷ []) s e = ground arith
    empty _ s e = cc
