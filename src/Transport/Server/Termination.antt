-- ===== src/Transport/Server/Termination.antt =====
-- The loop of a connection ends.
use ganglion.Prelude.{
  ℕ, zero, suc, ◌<◌, some, ◌≡◌, arith, length, if◌then◌else◌, Result, ok, err, Result-cases, inl,
  inr,
}
use ganglion.Transport.Stream.{ErrorKind, Stream}
use ganglion.Transport.Frame.{WireFormat, WireCodec, write_frame, read_frame}
use ganglion.Transport.Frame.RoundTrip.{write_frame-ok}
use ganglion.Transport.Frame.Bounds.{read_frame-bounds}
use ganglion.Transport.Wire.{RaftTypes, WireRequest, WireResponse}
use ganglion.Transport.Server.{Raft, respond, is_unexpected_eof, serve_connection}

module _ {t : RaftTypes} {R : Type 0} (raft : Raft t R) (requests : WireCodec (WireRequest t))
    (responses : WireCodec (WireResponse t)) (format : WireFormat) where
  -- The loop of a connection returns after at most one turn more than there are bytes to read,
  -- whatever the bytes are, what the raft handle answers, and when writing fails.
  pub serve_connection-returns :
      (fuel : ℕ) (core : R) (s : Stream)
      → length s.incoming < fuel
      → (result : Result ErrorKind (Unit {0})) × (after : R × Stream) × (serve_connection raft
            requests responses format fuel core s
          ≡ some (result, after))
  unfolding serve_connection
  serve_connection-returns zero core s h = absurd (omega arith)
  serve_connection-returns (suc fuel) core s h =
      let s1 = (read_frame requests s).1 in
      elim (Result-cases (read_frame requests s).0) [
        | inl (e, ended) ↦ (if is_unexpected_eof e then ok tt else err e, (core, s1), ground arith)
        | inr (request, got) ↦
            let (response, after) = respond raft core request in
            let s2 = (write_frame responses format response s1).1 in
            elim (Result-cases (write_frame responses format response s1).0) [
              | inl (e, failed) ↦ (err e, (after, s2), ground arith)
              | inr (done, wrote) ↦
                  let read = read_frame-bounds requests request s s1 (ground arith) in
                  let write = write_frame-ok responses format response s1 s2 (ground arith) in
                  let rest = serve_connection-returns fuel after s2 (ground arith) in
                  (rest.0, rest.1, ground arith)
            ]
      ]
