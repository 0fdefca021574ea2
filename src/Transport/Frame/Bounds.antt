-- ===== src/Transport/Frame/Bounds.antt =====
-- How many bytes a frame has.
use ganglion.Prelude.{◌+◌, ◌≤◌, ◌≡◌, arith, length, ok, Result-cases, inl, inr}
use ganglion.Transport.Stream.{Stream, read_exact_cases}
use ganglion.Transport.Frame.{
  WireCodec, from_tag, max_frame_bytes, from_be_bytes, first_byte, read_frame,
}

module _ {T : Type 0} (codec : WireCodec T) where
  -- A read that gives a value takes the tag, the length and at most the largest body off the
  -- stream, at least five bytes, and touches nothing else of it.
  pub read_frame-bounds :
      (value : T) (s after : Stream)
      → read_frame codec s ≡ (ok value, after)
      → ((length after.incoming + 5 ≤ length s.incoming)
          × (length s.incoming ≤ length after.incoming + 5 + max_frame_bytes))
        × (after ≡ record s { incoming = after.incoming })
  unfolding read_frame
  read_frame-bounds value s after h = elim (read_exact_cases 1 s) [
    | inr short ↦ absurd (ground arith)
    | inl (tag, rest1, (got1, len1)) ↦ elim (Result-cases (from_tag (first_byte tag))) [
      | inl (e, unknown) ↦ absurd (ground arith)
      | inr (format, known) ↦ elim (read_exact_cases 4 (record s { incoming = rest1 })) [
        | inr short ↦ absurd (ground arith)
        | inl (prefix, rest2, (got2, len2)) ↦
            elim (read_exact_cases (from_be_bytes prefix) (record s { incoming = rest2 })) [
              | inr short ↦ absurd (ground arith)
              | inl (body, rest3, (got3, len3)) ↦ ground arith
            ]
      ]
    ]
  ]
