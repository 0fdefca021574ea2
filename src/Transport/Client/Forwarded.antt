-- ===== src/Transport/Client/Forwarded.antt =====
-- A write that is forwarded to a server and comes back.
use mathlib.Core.List.{append-nil}
use ganglion.Prelude.{ℕ, ◌-◌, ◌≤◌, ◌<◌, some, [], ◌∷◌, ◌++◌, ◌≡◌, refl, sym, ◌∙◌, arith, length, ok}
use ganglion.Openraft.Command.{MetadataRaftCommand}
use ganglion.Transport.Stream.{Bytes, unexpected_eof, Stream}
use ganglion.Transport.Frame.{WireFormat, WireCodec, encode, max_frame_bytes, write_frame}
use ganglion.Transport.Frame.RoundTrip.{
  BothRoundTrip, frame_bytes, write_frame-ok, read_frame-frame_bytes, decode-encode, append-cancel,
}
use ganglion.Transport.Wire.{RaftTypes, WireRequest, client_write_request, WireResponse}
use ganglion.Transport.Server.{Raft, remote_result, respond, serve_connection}
use ganglion.Transport.Server.Answers.{serve_connection-answers}
use ganglion.Transport.Client.{client_write_remote_with_hint}

module _ {t : RaftTypes} {R : Type 0} (raft : Raft t R) (requests : WireCodec (WireRequest t))
    (responses : WireCodec (WireResponse t)) (format server_format : WireFormat) where
  -- A command that a client writes to a stream, which a server reads as its only request, is
  -- given to the raft core once, and the client returns the result of that. The client reads the
  -- bytes that the server wrote; each side reads what the serializers write, the reply can be
  -- encoded and fits a frame and the stream of the server, and the fuel is above the number of
  -- bytes that the server reads.
  pub client_write_remote_with_hint-serve_connection :
      (core : R) (command : MetadataRaftCommand) (client after server : Stream) (sent body : Bytes)
      (fuel : ℕ)
      → BothRoundTrip requests
      → BothRoundTrip responses
      → write_frame requests format (client_write_request command) client ≡ (ok tt, after)
      → after.outgoing ≡ client.outgoing ++ sent
      → server.incoming ≡ sent
      → server.end ≡ unexpected_eof
      → encode responses server_format (respond raft core (client_write_request command)).0
        ≡ ok body
      → length body ≤ max_frame_bytes
      → length (frame_bytes server_format body) ≤ server.room
      → client.incoming ≡ frame_bytes server_format body
      → length sent < fuel
      → let (result, core_after) = raft.client_write core command in
        (serve_connection raft requests responses server_format fuel core server
          ≡ some (
            ok tt,
            (
              core_after,
              record server {
                incoming = [];
                outgoing = server.outgoing ++ client.incoming;
                room = server.room - length client.incoming;
              },
            ),
          ))
        × (client_write_remote_with_hint requests responses (ok client) command format
            ≡ remote_result result)
  unfolding client_write_remote_with_hint respond
  client_write_remote_with_hint-serve_connection core command client after server sent body fuel rq
        rs w added got end encoded small room reply fits =
      let request : WireRequest t = client_write_request command in
      let (sent_body, ((written, sized), (grown, (_, kept)))) =
        write_frame-ok requests format request client after w in
      let whole : frame_bytes format sent_body ≡ sent =
        append-cancel client.outgoing (frame_bytes format sent_body) sent (sym grown ∙ added) in
      let frame = frame_bytes server_format body in
      let answer = (respond raft core request).0 in
      let read =
        read_frame-frame_bytes responses server_format answer body [] after
          (decode-encode responses server_format answer body rs encoded) small
          (kept ∙ reply ∙ sym (append-nil frame)) in
      (
        serve_connection-answers raft requests responses server_format (request ∷ []) fuel core
            server client.incoming end
            (
              format,
              sent_body,
              [],
              (
                (decode-encode requests format request sent_body rq written, sized),
                (got ∙ sym whole ∙ sym (append-nil (frame_bytes format sent_body)), refl),
              ),
            )
            (body, [], ((encoded, small), (reply ∙ sym (append-nil frame), refl))) (ground arith)
            (ground arith),
        rw (client_write_remote_with_hint, w, read) refl,
      )
