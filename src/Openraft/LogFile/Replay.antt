-- ===== src/Openraft/LogFile/Replay.antt =====
-- What the lines of a file replay to.
use ganglion.Prelude.{
  ℕ, ◌+◌, none, some, Bool, false, List, [], ◌∷◌, ◌++◌, ◌≡◌, arith, length, ok, Option-cases,
  Bool-cases, inl, inr,
}
use mathlib.Core.Path.{subst}
use ganglion.Openraft.Wal.{WalRecord, DurableState, empty_state, apply_record, replay}
use ganglion.Openraft.Wal.Compaction.{IsIndexed, apply_record-IsIndexed}
use ganglion.Openraft.Machine.{Bytes, Codec, RoundTrips, DiskWrite}
use ganglion.Openraft.LogFile.{FileRaftLogStore, encode_all, read_lines, open_store}

module _ {V L M : Type 0} (codec : Codec (WalRecord V L M)) (is_blank : Bytes → Bool) where
  -- A reopened file would give the store's state, and the writer can go on.
  pub record IsDurable (store : FileRaftLogStore V L M) : Type 0 where
    pub records : ℕ
    pub replays :
        read_lines codec is_blank empty_state 0 store.wal.lines ≡ some (store.state, records)
    pub healthy : store.wal.failed ≡ false
    pub attached : store.wal.detached ≡ false
    pub indexed : IsIndexed store.state

  pub read_lines-append :
      (state : DurableState V L M) (n : ℕ) (xs ys : List Bytes) (s' : DurableState V L M) (m : ℕ)
      → read_lines codec is_blank state n xs ≡ some (s', m)
      → read_lines codec is_blank state n (xs ++ ys) ≡ read_lines codec is_blank s' m ys
  unfolding read_lines
  read_lines-append state n [] ys s' m h = ground arith
  read_lines-append state n (x ∷ xs) ys s' m h = elim (Bool-cases (is_blank x)) [
    | inl blank ↦ ground (arith, read_lines-append state n xs ys s' m)
    | inr text ↦ elim (Option-cases (codec.from_slice x)) [
      | inl malformed ↦ ground arith
      | inr (r, parsed) ↦
          ground (arith, read_lines-append (apply_record state r) (n + 1) xs ys s' m)
    ]
  ]

  pub read_lines-IsIndexed :
      (state : DurableState V L M) (n : ℕ) (lines : List Bytes) (s' : DurableState V L M) (m : ℕ)
      → IsIndexed state
      → read_lines codec is_blank state n lines ≡ some (s', m)
      → IsIndexed s'
  unfolding read_lines
  read_lines-IsIndexed state n [] s' m i h = subst IsIndexed (ground arith) i
  read_lines-IsIndexed state n (x ∷ xs) s' m i h = elim (Bool-cases (is_blank x)) [
    | inl blank ↦ read_lines-IsIndexed state n xs s' m i (ground arith)
    | inr text ↦ elim (Option-cases (codec.from_slice x)) [
      | inl malformed ↦ absurd (ground arith)
      | inr (r, parsed) ↦
          read_lines-IsIndexed (apply_record state r) (n + 1) xs s' m
            (apply_record-IsIndexed state r i) (ground arith)
    ]
  ]

  pub replay-IsIndexed :
      (state : DurableState V L M) (rs : List (WalRecord V L M))
      → IsIndexed state
      → IsIndexed (replay state rs)
  unfolding replay
  replay-IsIndexed state [] h = h
  replay-IsIndexed state (r ∷ rs) h =
      replay-IsIndexed (apply_record state r) rs (apply_record-IsIndexed state r h)

module _ {V L M : Type 0} (codec : Codec (WalRecord V L M)) (is_blank : Bytes → Bool)
    (round : RoundTrips codec)
    (visible : (r : WalRecord V L M) (line : Bytes)
      → codec.to_vec r ≡ some line
      → is_blank line ≡ false) where
  pub read_lines-encode_all :
      (rs : List (WalRecord V L M)) (lines : List Bytes) (state : DurableState V L M) (n : ℕ)
      → encode_all codec rs ≡ some lines
      → read_lines codec is_blank state n lines ≡ some (replay state rs, n + length rs)
  unfolding read_lines encode_all replay
  read_lines-encode_all [] [] state n h = ground arith
  read_lines-encode_all [] (line ∷ lines) state n h = cc
  read_lines-encode_all (r ∷ rs) lines state n h = elim (Option-cases (codec.to_vec r)) [
    | inl failed ↦ ground arith
    | inr (line, wrote) ↦ elim (Option-cases (encode_all codec rs)) [
      | inl failed ↦ ground arith
      | inr (rest, wrote_rest) ↦ ground (
        arith,
        round r line wrote,
        visible r line wrote,
        read_lines-encode_all rs rest (apply_record state r) (n + 1) wrote_rest,
      )
    ]
  ]

module _ {V L M : Type 0} (codec : Codec (WalRecord V L M)) (is_blank : Bytes → Bool) where
  -- A durable store is opened again in the state that it has.
  pub state-open_store :
      (write : DiskWrite) (ended : Bool) (store opened : FileRaftLogStore V L M)
      → IsDurable codec is_blank store
      → open_store codec is_blank write store.wal.lines ended ≡ ok opened
      → opened.state ≡ store.state
  unfolding open_store
  state-open_store write ended store opened d h = ground arith

  -- A file with a line that is neither blank nor a record cannot be read.
  pub read_lines-malformed :
      (state : DurableState V L M) (n : ℕ) (lines more : List Bytes) (line : Bytes)
      → is_blank line ≡ false
      → codec.from_slice line ≡ none
      → read_lines codec is_blank state n (lines ++ line ∷ more) ≡ none
  unfolding read_lines
  read_lines-malformed state n [] more line b h = ground arith
  read_lines-malformed state n (x ∷ xs) more line b h = elim (Bool-cases (is_blank x)) [
    | inl blank ↦ ground (arith, read_lines-malformed state n xs more line b h)
    | inr text ↦ elim (Option-cases (codec.from_slice x)) [
      | inl malformed ↦ ground arith
      | inr (r, parsed) ↦
          ground (arith, read_lines-malformed (apply_record state r) (n + 1) xs more line b h)
    ]
  ]
