-- ===== src/Transport/Frame/RoundTrip.antt =====
-- A frame that was written is read back, and no byte more.
use mathlib.Core.List.{append_assoc}
use ganglion.Prelude.{
  ℕ, ◌+◌, ◌^◌, ◌≤◌, ◌<◌, false, [], ◌∷◌, ◌++◌, ◌≡◌, refl, sym, ap, ◌∙◌, arith, length, ok,
  Result-cases, Option-cases, inl, inr, ltb,
}
use ganglion.Openraft.Machine.{RoundTrips}
use ganglion.Transport.Stream.{Bytes, Stream, read_exact, write_all, read_exact-append}
use ganglion.Transport.Frame.{
  WireFormat, message_pack, json, WireCodec, tag, from_tag, encode, decode, max_frame_bytes,
  to_be_bytes, from_be_bytes, write_frame, read_frame,
}

-- The bytes of a frame.
abbrev pub frame_bytes : WireFormat → Bytes → Bytes
frame_bytes format body = tag format ∷ to_be_bytes (length body) ++ body

from_be_bytes-to_be_bytes : (n : ℕ) → n < 2 ^ 32 → from_be_bytes (to_be_bytes n) ≡ n
from_be_bytes-to_be_bytes n h = omega arith

fits : (body : Bytes) → length body ≤ max_frame_bytes → ltb max_frame_bytes (length body) ≡ false
fits body b = ground arith

-- Both serializers read back what they write.
abbrev pub BothRoundTrip : {T : Type 0} → WireCodec T → Type 0
BothRoundTrip codec = RoundTrips codec.rmp_serde × RoundTrips codec.serde_json

module _ {T : Type 0} (codec : WireCodec T) where
  -- What a write that succeeds adds to the stream.
  pub write_frame-ok :
      (format : WireFormat) (value : T) (s after : Stream)
      → write_frame codec format value s ≡ (ok tt, after)
      → (body : Bytes) × (((encode codec format value ≡ ok body) × (length body ≤ max_frame_bytes))
          × ((after.outgoing ≡ s.outgoing ++ frame_bytes format body)
              × ((s.room ≡ after.room + (5 + length body)) × (after.incoming ≡ s.incoming))))
  unfolding write_frame write_all
  write_frame-ok format value s after h = elim (Result-cases (encode codec format value)) [
    | inl (e, failed) ↦ absurd (ground arith)
    | inr (body, encoded) ↦
        let assoc1 = append_assoc s.outgoing (tag format ∷ []) (to_be_bytes (length body)) in
        let assoc2 = append_assoc s.outgoing (tag format ∷ to_be_bytes (length body)) body in
        (body, ground arith)
  ]

  read_frame-head :
      (format : WireFormat) (value : T) (body rest : Bytes) (r : Stream)
      → decode codec format body ≡ ok value
      → length body ≤ max_frame_bytes
      → read_frame codec (record r { incoming = frame_bytes format body ++ rest })
        ≡ (ok value, record r { incoming = rest })
  unfolding read_frame read_exact from_tag tag
  read_frame-head message_pack value body rest r d b =
      rw
        (
          from_be_bytes-to_be_bytes (length body) (omega arith),
          fits body b,
          read_exact-append body rest r,
          d,
        )
        refl
  read_frame-head json value body rest r d b =
      rw
        (
          from_be_bytes-to_be_bytes (length body) (omega arith),
          fits body b,
          read_exact-append body rest r,
          d,
        )
        refl

  -- Reading a frame at the head of the stream.
  pub read_frame-frame_bytes :
      (format : WireFormat) (value : T) (body rest : Bytes) (r : Stream)
      → decode codec format body ≡ ok value
      → length body ≤ max_frame_bytes
      → r.incoming ≡ frame_bytes format body ++ rest
      → read_frame codec r ≡ (ok value, record r { incoming = rest })
  read_frame-frame_bytes format value body rest r d b h =
      ap (λ i. read_frame codec (record r { incoming = i })) h
      ∙ read_frame-head format value body rest r d b

pub append-cancel : (xs ys zs : Bytes) → xs ++ ys ≡ xs ++ zs → ys ≡ zs
append-cancel [] ys zs h = h
append-cancel (x ∷ xs) ys zs h = append-cancel xs ys zs (cc)

pub decode-encode :
    {T : Type 0} (codec : WireCodec T) (format : WireFormat) (value : T) (body : Bytes)
    → BothRoundTrip codec
    → encode codec format value ≡ ok body
    → decode codec format body ≡ ok value
unfolding encode decode
decode-encode codec message_pack value body back h =
    elim (Option-cases (codec.rmp_serde.to_vec value)) [
      | inl none_written ↦ absurd (ground arith)
      | inr (bytes, written) ↦ ground (arith, back.0 value bytes written)
    ]
decode-encode codec json value body back h = elim (Option-cases (codec.serde_json.to_vec value)) [
  | inl none_written ↦ absurd (ground arith)
  | inr (bytes, written) ↦ ground (arith, back.1 value bytes written)
]

-- A value that was written to a stream is read back from a stream that begins with the bytes that
-- the write added, in either format, and the bytes after them are left to be read. What the
-- serializers write they can read.
pub read_frame-write_frame :
    {T : Type 0} (codec : WireCodec T) (format : WireFormat) (value : T) (s after r : Stream)
    (sent rest : Bytes)
    → BothRoundTrip codec
    → write_frame codec format value s ≡ (ok tt, after)
    → after.outgoing ≡ s.outgoing ++ sent
    → r.incoming ≡ sent ++ rest
    → read_frame codec r ≡ (ok value, record r { incoming = rest })
read_frame-write_frame codec format value s after r sent rest back w added h =
    let (body, ((encoded, small), (grown, _))) = write_frame-ok codec format value s after w in
    let whole : frame_bytes format body ≡ sent =
      append-cancel s.outgoing (frame_bytes format body) sent (sym grown ∙ added) in
    read_frame-frame_bytes codec format value body rest r
      (decode-encode codec format value body back encoded) small
      (h ∙ ap (λ bytes. bytes ++ rest) (sym whole))
