-- ===== src/Transport/Server/Answers.antt =====
-- What a connection answers to whole frames.
use mathlib.Core.List.{append_assoc, append-nil}
use ganglion.Prelude.{
  ℕ, zero, suc, ◌+◌, ◌-◌, ◌≤◌, ◌<◌, some, List, [], ◌∷◌, ◌++◌, ◌≡◌, refl, ap, ◌∙◌, arith, length,
  length-append, ok, err,
}
use ganglion.Transport.Stream.{Bytes, unexpected_eof, Stream, read_exact, write_all}
use ganglion.Transport.Frame.{
  WireFormat, WireCodec, encode, decode, max_frame_bytes, to_be_bytes, tag, write_frame, read_frame,
}
use ganglion.Transport.Frame.RoundTrip.{frame_bytes, read_frame-frame_bytes}
use ganglion.Transport.Wire.{RaftTypes, WireRequest, WireResponse}
use ganglion.Transport.Server.{Raft, respond, serve_connection}

-- Bytes that are frames of the values, in any formats.
abbrev pub Framed : {T : Type 0} → WireCodec T → List T → Bytes → Type 0
Framed codec [] bytes = bytes ≡ []
Framed codec (value ∷ values) bytes =
    (format : WireFormat) × (body rest : Bytes) × (((decode codec format body ≡ ok value)
        × (length body ≤ max_frame_bytes))
      × ((bytes ≡ frame_bytes format body ++ rest) × Framed codec values rest))

-- Bytes that are what is written for the values in one format.
abbrev pub Written : {T : Type 0} → WireCodec T → WireFormat → List T → Bytes → Type 0
Written codec format [] bytes = bytes ≡ []
Written codec format (value ∷ values) bytes =
    (body rest : Bytes) × (((encode codec format value ≡ ok body) × (length body ≤ max_frame_bytes))
      × ((bytes ≡ frame_bytes format body ++ rest) × Written codec format values rest))

read_frame-closed :
    {T : Type 0} (codec : WireCodec T) (s : Stream)
    → s.incoming ≡ []
    → read_frame codec s ≡ (err s.end, record s { incoming = [] })
unfolding read_frame read_exact
read_frame-closed codec s h = rw h refl

write_frame-fits :
    {T : Type 0} (codec : WireCodec T) (format : WireFormat) (value : T) (body : Bytes) (s : Stream)
    → encode codec format value ≡ ok body
    → length body ≤ max_frame_bytes
    → length (frame_bytes format body) ≤ s.room
    → write_frame codec format value s ≡ (
      ok tt,
      record s {
        outgoing = s.outgoing ++ frame_bytes format body;
        room = s.room - length (frame_bytes format body);
      },
    )
unfolding write_frame write_all
write_frame-fits codec format value body s e b r =
    let assoc1 = append_assoc s.outgoing (tag format ∷ []) (to_be_bytes (length body)) in
    let assoc2 = append_assoc s.outgoing (tag format ∷ to_be_bytes (length body)) body in
    ground arith

module _ {t : RaftTypes} {R : Type 0} (raft : Raft t R) where
  -- The answers to requests one after the other, and the raft core after them.
  abbrev pub answers : R → List (WireRequest t) → List (WireResponse t) × R
  answers core [] = ([], core)
  answers core (request ∷ rest) =
      let (response, after) = respond raft core request in
      let (others, last) = answers after rest in (response ∷ others, last)

module _ {t : RaftTypes} {R : Type 0} (raft : Raft t R) (requests : WireCodec (WireRequest t))
    (responses : WireCodec (WireResponse t)) (format : WireFormat) where
  -- A connection whose bytes are the frames of some requests, in any formats, and which the peer
  -- then closes, ends well after it has given each request to the raft core in turn, and written
  -- exactly the answers, in order and in the format of the server. There is room for the bytes of
  -- the answers, and the fuel is above the number of bytes to read.
  pub serve_connection-answers :
      (rs : List (WireRequest t)) (fuel : ℕ) (core : R) (s : Stream) (sent : Bytes)
      → s.end ≡ unexpected_eof
      → Framed requests rs s.incoming
      → Written responses format (answers raft core rs).0 sent
      → length sent ≤ s.room
      → length s.incoming < fuel
      → serve_connection raft requests responses format fuel core s
        ≡ some (
          ok tt,
          (
            (answers raft core rs).1,
            record s { incoming = []; outgoing = s.outgoing ++ sent; room = s.room - length sent },
          ),
        )
  unfolding serve_connection
  serve_connection-answers rs zero core s sent e f w room fuel = absurd (omega arith)
  serve_connection-answers [] (suc n) core s sent e f w room fuel =
      let closed = read_frame-closed requests s f in
      let unchanged = append-nil s.outgoing in ground arith
  serve_connection-answers (request ∷ rs) (suc n) core s sent e (fmt, body, rest, ((d, b), (i, f)))
        (body2, rest2, ((en, b2), (o, w))) room fuel =
      let s1 : Stream = record s { incoming = rest } in
      let got : read_frame requests s ≡ (ok request, s1) =
        read_frame-frame_bytes requests fmt request body rest s d b i in
      let (response, after) = respond raft core request in
      let frame = frame_bytes format body2 in
      let size : length sent ≡ length frame + length rest2 =
        ap length o ∙ length-append frame rest2 in
      let less : length s.incoming ≡ length (frame_bytes fmt body) + length rest =
        ap length i ∙ length-append (frame_bytes fmt body) rest in
      let wrote = write_frame-fits responses format response body2 s1 en b2 (ground arith) in
      let s2 : Stream = record s1 {
        outgoing = s.outgoing ++ frame;
        room = s.room - length frame;
      } in
      let next = serve_connection-answers rs n after s2 rest2 e f w (ground arith) (ground arith) in
      let whole = append_assoc s.outgoing frame rest2 in ground arith
