-- ===== src/Transport/Tests.antt =====
-- The results of the transport at sample data. The sample codecs write only what the tests need, in
-- the same way in both formats; the sample raft core counts the calls it has had.
use ganglion.Prelude.{
  ℕ, zero, suc, ◌+◌, ◌-◌, ◌≤◌, Option, some, none, true, List, [], ◌∷◌, ◌++◌, ◌≡◌, ◌⊎◌, refl, arith,
  length, Result, ok, err, nat_ord,
}
use ganglion.BTreeMap.{get, remove}
use ganglion.Openraft.Command.{MetadataRaftCommand, remove_attribute}
use ganglion.Openraft.Machine.{Codec}
use ganglion.Transport.Stream.{
  Bytes, ErrorKind, connection_reset, unexpected_eof, timed_out, broken_pipe, Stream, read_exact,
  write_all,
}
use ganglion.Transport.Frame.{
  message_pack, json, WireCodec, tag, from_tag, encode, decode, max_frame_bytes, write_frame,
  read_frame,
}
use ganglion.Transport.Frame.RoundTrip.{BothRoundTrip, frame_bytes, read_frame-write_frame}
use ganglion.Transport.Frame.Bounds.{read_frame-bounds}
use ganglion.Transport.Wire.{
  RaftTypes, not_the_leader, WireRequest, append_entries_request, vote_request,
  install_snapshot_request, client_write_request, WireResponse, append_entries_response,
  vote_response, client_write_response,
}
use ganglion.Transport.Server.{Raft, forward_to_leader, remote_result, respond, serve_connection}
use ganglion.Transport.Server.Termination.{serve_connection-returns}
use ganglion.Transport.Server.Answers.{answers, Framed, Written, serve_connection-answers}
use ganglion.Transport.PeerHealth.{
  PeerTransportFailure, Observation, observe, observe_all, record_observation,
}
use ganglion.Transport.PeerHealth.Streak.{streak_of, get-observe_all}
use ganglion.Transport.Connection.{
  Connection, quiet, CallEnvironment, exchange, on_stream, try_call, acquire, call,
}
use ganglion.Transport.Connection.Kept.{IsKept, call-IsKept}
use ganglion.Transport.Client.{client_write_remote_with_hint}
use ganglion.Transport.Client.Forwarded.{client_write_remote_with_hint-serve_connection}

abbrev types : RaftTypes
types = record {
  AppendEntriesRequest = ℕ;
  AppendEntriesResponse = ℕ;
  VoteRequest = ℕ;
  VoteResponse = ℕ;
  InstallSnapshotRequest = ℕ;
  InstallSnapshotResponse = ℕ;
  InstallSnapshotError = ℕ;
  Fatal = ℕ;
}

abbrev print_request : WireRequest types → Option Bytes
print_request (append_entries_request n) = some (0 ∷ n ∷ [])
print_request (vote_request n) = some (1 ∷ n ∷ [])
print_request (install_snapshot_request n) = some (2 ∷ n ∷ [])
print_request (client_write_request (remove_attribute key)) = some (3 ∷ key)
print_request (client_write_request _) = none

abbrev parse_request : Bytes → Option (WireRequest types)
parse_request (zero ∷ n ∷ []) = some (append_entries_request n)
parse_request (suc zero ∷ n ∷ []) = some (vote_request n)
parse_request (suc (suc zero) ∷ n ∷ []) = some (install_snapshot_request n)
parse_request (suc (suc (suc zero)) ∷ key) = some (client_write_request (remove_attribute key))
parse_request _ = none

abbrev request_codec : WireCodec (WireRequest types)
request_codec =
    let codec : Codec (WireRequest types) = record {
      to_vec = print_request;
      from_slice = parse_request;
    } in
    record { rmp_serde = codec; serde_json = codec }

parse_request-print_request :
    (r : WireRequest types) (bytes : Bytes)
    → print_request r ≡ some bytes
    → parse_request bytes ≡ some r
parse_request-print_request (append_entries_request n) bytes h = ground arith
parse_request-print_request (vote_request n) bytes h = ground arith
parse_request-print_request (install_snapshot_request n) bytes h = ground arith
parse_request-print_request (client_write_request (remove_attribute key)) bytes h = ground arith
parse_request-print_request (client_write_request _) bytes h = cc

abbrev print_response : WireResponse types → Option Bytes
print_response (append_entries_response (ok n)) = some (0 ∷ n ∷ [])
print_response (vote_response (ok n)) = some (1 ∷ n ∷ [])
print_response (client_write_response (err (not_the_leader none))) = some (3 ∷ [])
print_response _ = none

abbrev parse_response : Bytes → Option (WireResponse types)
parse_response (zero ∷ n ∷ []) = some (append_entries_response (ok n))
parse_response (suc zero ∷ n ∷ []) = some (vote_response (ok n))
parse_response (suc (suc (suc zero)) ∷ []) =
    some (client_write_response (err (not_the_leader none)))
parse_response _ = none

abbrev response_codec : WireCodec (WireResponse types)
response_codec =
    let codec : Codec (WireResponse types) = record {
      to_vec = print_response;
      from_slice = parse_response;
    } in
    record { rmp_serde = codec; serde_json = codec }

parse_response-print_response :
    (r : WireResponse types) (bytes : Bytes)
    → print_response r ≡ some bytes
    → parse_response bytes ≡ some r
parse_response-print_response (append_entries_response (ok n)) bytes h = ground arith
parse_response-print_response (vote_response (ok n)) bytes h = ground arith
parse_response-print_response (client_write_response (err (not_the_leader none))) bytes h =
    ground arith
parse_response-print_response _ bytes h = cc

abbrev raft : Raft types ℕ
raft = record {
  append_entries = λ count n. (ok (n + 1), count + 1);
  vote = λ count n. (ok n, count + 1);
  install_snapshot = λ count n. (ok n, count + 1);
  client_write = λ count command. (err (forward_to_leader none), count + 1);
}

abbrev request : WireRequest types
request = append_entries_request 7

abbrev stream_of : Bytes → Stream
stream_of bytes = record {
  incoming = bytes;
  end = unexpected_eof;
  outgoing = 5 ∷ [];
  room = 100;
  failure = broken_pipe;
}

-- A frame of two bytes in the compact format.
abbrev frame : ℕ → ℕ → Bytes
frame a b = 1 ∷ 0 ∷ 0 ∷ 0 ∷ 2 ∷ a ∷ b ∷ []

abbrev written : Stream
written = record (stream_of []) { outgoing = 5 ∷ frame 0 7; room = 93 }

writes : write_frame request_codec message_pack request (stream_of []) ≡ (ok tt, written)
unfolding write_frame write_all encode tag
writes = refl

request_codec-BothRoundTrip : BothRoundTrip request_codec
request_codec-BothRoundTrip = (parse_request-print_request, parse_request-print_request)

response_codec-BothRoundTrip : BothRoundTrip response_codec
response_codec-BothRoundTrip = (parse_response-print_response, parse_response-print_response)

read_frame-write_frame_example :
    read_frame request_codec (stream_of (frame 0 7 ++ 9 ∷ []))
    ≡ (ok request, record (stream_of (frame 0 7 ++ 9 ∷ [])) { incoming = 9 ∷ [] })
read_frame-write_frame_example =
    read_frame-write_frame request_codec message_pack request (stream_of []) written
      (stream_of (frame 0 7 ++ 9 ∷ [])) (frame 0 7) (9 ∷ []) request_codec-BothRoundTrip writes refl
      refl

reads : read_frame request_codec (stream_of (frame 0 7)) ≡ (ok request, stream_of [])
unfolding read_frame read_exact decode from_tag
reads = refl

read_frame-bounds_example :
    ((length {A = ℕ} [] + 5 ≤ length (frame 0 7))
      × (length (frame 0 7) ≤ length {A = ℕ} [] + 5 + max_frame_bytes))
    × (stream_of [] ≡ record (stream_of (frame 0 7)) { incoming = [] })
read_frame-bounds_example =
    read_frame-bounds request_codec request (stream_of (frame 0 7)) (stream_of []) reads

abbrev core : ℕ
core = 3

serve_connection-returns_example :
    (result : Result ErrorKind (Unit {0})) × (after : ℕ × Stream) × (serve_connection raft
        request_codec response_codec json 9 core
        (stream_of (frame 0 7))
      ≡ some (result, after))
serve_connection-returns_example =
    serve_connection-returns raft request_codec response_codec json 9 core (stream_of (frame 0 7))
      (omega arith)

abbrev requests : List (WireRequest types)
requests = append_entries_request 7 ∷ vote_request 4 ∷ []

framed : Framed request_codec requests (frame 0 7 ++ frame 1 4)
unfolding decode tag
framed = (
  message_pack,
  0 ∷ 7 ∷ [],
  frame 1 4,
  (
    (refl, omega arith),
    (refl, (message_pack, 1 ∷ 4 ∷ [], [], ((refl, omega arith), (refl, refl)))),
  ),
)

answered :
    Written response_codec message_pack (answers raft core requests).0 (frame 0 8 ++ frame 1 4)
unfolding encode tag respond
answered = (
  0 ∷ 8 ∷ [],
  frame 1 4,
  ((refl, omega arith), (refl, (1 ∷ 4 ∷ [], [], ((refl, omega arith), (refl, refl))))),
)

serve_connection-answers_example :
    serve_connection raft request_codec response_codec message_pack 15 core
      (stream_of (frame 0 7 ++ frame 1 4))
    ≡ some (
      ok tt,
      (
        (answers raft core requests).1,
        record (stream_of []) {
          incoming = [];
          outgoing = 5 ∷ [] ++ frame 0 8 ++ frame 1 4;
          room = 100 - length (frame 0 8 ++ frame 1 4);
        },
      ),
    )
serve_connection-answers_example =
    serve_connection-answers raft request_codec response_codec message_pack requests 15 core
      (stream_of (frame 0 7 ++ frame 1 4)) (frame 0 8 ++ frame 1 4) refl framed answered
      (omega arith) (omega arith)

abbrev command : MetadataRaftCommand
command = remove_attribute (9 ∷ [])

abbrev reply : Bytes
reply = 2 ∷ 0 ∷ 0 ∷ 0 ∷ 1 ∷ 3 ∷ []

abbrev forwarded : Stream
forwarded = record (stream_of reply) { outgoing = 5 ∷ frame 3 9; room = 93 }

forwards :
    write_frame request_codec message_pack (client_write_request command) (stream_of reply)
    ≡ (ok tt, forwarded)
unfolding write_frame write_all encode tag
forwards = refl

replied :
    encode response_codec json (respond raft core (client_write_request command)).0 ≡ ok (3 ∷ [])
unfolding encode respond
replied = refl

reply_lem : reply ≡ frame_bytes json (3 ∷ [])
unfolding tag
reply_lem = refl

client_write_remote_with_hint-serve_connection_example :
    (serve_connection raft request_codec response_codec json 8 core (stream_of (frame 3 9))
      ≡ some (
        ok tt,
        (
          4,
          record (stream_of []) {
            incoming = [];
            outgoing = 5 ∷ [] ++ reply;
            room = 100 - length reply;
          },
        ),
      ))
    × (client_write_remote_with_hint request_codec response_codec
          (ok (stream_of reply))
          command
          message_pack
        ≡ remote_result (err (forward_to_leader none)))
client_write_remote_with_hint-serve_connection_example =
    client_write_remote_with_hint-serve_connection raft request_codec response_codec message_pack
      json core command (stream_of reply) forwarded (stream_of (frame 3 9)) (frame 3 9) (3 ∷ []) 8
      request_codec-BothRoundTrip response_codec-BothRoundTrip forwards refl refl refl replied
      (omega arith) (omega arith) reply_lem (omega arith)

abbrev observations : List Observation
observations =
    record { peer = 2; outcome = err connection_reset; now = 10 }
    ∷ record { peer = 3; outcome = err timed_out; now = 11 }
    ∷ record { peer = 2; outcome = err unexpected_eof; now = 12 }
    ∷ []

get-observe_all_example :
    get 2 (observe_all observations [])
    ≡ streak_of 2 observations (get {K = ℕ} {V = PeerTransportFailure} 2 [])
get-observe_all_example = get-observe_all observations [] 2 (omega arith)

abbrev connection : Connection
connection = record {
  target = 2;
  format = message_pack;
  stream = some (stream_of (frame 0 8));
  idle = none;
  health = [];
  monitor_idle = true;
}

abbrev environment : CallEnvironment
environment = record {
  idle_event = quiet;
  first_dial = err broken_pipe;
  second_dial = err broken_pipe;
  second_in_time = true;
  idle_time = 1;
  first_time = 2;
  second_time = 3;
}

abbrev called : Connection
called = record connection {
  stream = none;
  idle = some (record (stream_of []) { outgoing = 5 ∷ frame 0 7; room = 93 });
}

calls :
    call request_codec response_codec connection request environment
    ≡ (ok (append_entries_response (ok 8)), called)
unfolding call try_call on_stream exchange acquire write_frame read_frame write_all read_exact
    encode decode tag from_tag observe record_observation remove
calls = refl

call-IsKept_example :
    (IsKept request (ok (append_entries_response (ok 8))) called.stream
      × IsKept request (ok (append_entries_response (ok 8))) called.idle)
    × (((e : ErrorKind) × (◌≡◌ {A = Result ErrorKind (WireResponse types)}
            (ok (append_entries_response (ok 8)))
            (err e)))
        ⊎ (get called.target called.health ≡ none))
call-IsKept_example =
    call-IsKept request_codec response_codec connection called request environment
      (ok (append_entries_response (ok 8))) calls
