-- ===== src/RaftNode/Forwarding/Tests.antt =====
-- A forwarded write on a sample connection: bodies of one byte, which name the command by its
-- attribute's value and the reply by its generation.
use ganglion.Prelude.{
  ℕ, ◌-◌, Option, some, none, false, List, [], ◌∷◌, ◌++◌, ◌≡◌, refl, arith, map, length, ok, same,
}
use ganglion.Core.Model.{CoordinationSnapshot, default_snapshot}
use ganglion.Openraft.Command.{LogId, MetadataRaftCommand, set_attribute}
use ganglion.Openraft.StateMachine.{apply_command}
use ganglion.Openraft.Machine.{Codec, GanglionStateMachine, apply}
use ganglion.Transport.Stream.{Bytes, unexpected_eof, broken_pipe, Stream}
use ganglion.Transport.Frame.{message_pack, WireCodec, encode, decode, tag}
use ganglion.Transport.Wire.{
  RaftTypes, WireRequest, client_write_request, WireResponse, client_write_response,
}
use ganglion.Transport.Server.{Raft, serve_connection}
use ganglion.Transport.Server.Answers.{Framed, Written}
use ganglion.RaftNode.{response_to}
use ganglion.RaftNode.Forwarding.{Leads, logged, forwarded, answered, serve_connection-apply}

abbrev types : RaftTypes
types = record {
  AppendEntriesRequest = ℕ;
  AppendEntriesResponse = ℕ;
  VoteRequest = ℕ;
  VoteResponse = ℕ;
  InstallSnapshotRequest = ℕ;
  InstallSnapshotResponse = ℕ;
  InstallSnapshotError = ℕ;
  Fatal = ℕ;
}

abbrev put : ℕ → MetadataRaftCommand
put value = set_attribute (1 ∷ []) (value ∷ [])

abbrev parse_request : Bytes → Option (WireRequest types)
parse_request (value ∷ []) = some (client_write_request (put value))
parse_request _ = none

abbrev request_codec : WireCodec (WireRequest types)
request_codec =
    let codec : Codec (WireRequest types) = record {
      to_vec = λ r. none;
      from_slice = parse_request;
    } in
    record { rmp_serde = codec; serde_json = codec }

abbrev print_response : WireResponse types → Option Bytes
print_response (client_write_response (ok reply)) = some (reply.snapshot.generation ∷ [])
print_response _ = none

abbrev response_codec : WireCodec (WireResponse types)
response_codec =
    let codec : Codec (WireResponse types) = record {
      to_vec = print_response;
      from_slice = λ b. none;
    } in
    record { rmp_serde = codec; serde_json = codec }

-- A raft core that is the committed state, on the leader.
abbrev raft : Raft types CoordinationSnapshot
raft = record {
  append_entries = λ s n. (ok n, s);
  vote = λ s n. (ok n, s);
  install_snapshot = λ s n. (ok n, s);
  client_write = λ s command. (ok (response_to s command), (response_to s command).snapshot);
}

abbrev state : CoordinationSnapshot → CoordinationSnapshot
state s = s

raft-Leads : Leads raft state
raft-Leads core command = (refl, refl)

abbrev machine : GanglionStateMachine ℕ ℕ
machine = record {
  inner = record {
    last_applied = none;
    last_membership = 0;
    state = default_snapshot;
    snapshot_idx = 0;
    current_snapshot = none;
  };
  published = default_snapshot;
  has_path = false;
  disk = none;
  snapshot_persists = 0;
  snapshot_loads = 0;
}

abbrev members_of : Option (LogId ℕ) → ℕ → ℕ
members_of at members = members

abbrev commands : List (LogId ℕ × MetadataRaftCommand)
commands = (record { leader_id = 1; index = 1 }, put 7) ∷ []

abbrev frame : ℕ → Bytes
frame byte = 1 ∷ 0 ∷ 0 ∷ 0 ∷ 1 ∷ byte ∷ []

abbrev stream : Stream
stream = record {
  incoming = frame 7;
  end = unexpected_eof;
  outgoing = [];
  room = 100;
  failure = broken_pipe;
}

framed : Framed request_codec (map forwarded commands) (frame 7)
unfolding decode tag
framed = (message_pack, 7 ∷ [], [], ((refl, omega arith), (refl, refl)))

written :
    Written response_codec message_pack
      (map answered (apply members_of machine (map logged commands)).1)
      (frame 1)
unfolding encode tag apply apply_command same ganglion.BTreeMap.get
written = (1 ∷ [], [], ((refl, omega arith), (refl, refl)))

serve_connection-apply_example :
    (after : CoordinationSnapshot) × (serve_connection raft request_codec response_codec
        message_pack 9 default_snapshot stream
      ≡ some (
        ok tt,
        (
          after,
          record stream { incoming = []; outgoing = [] ++ frame 1; room = 100 - length (frame 1) },
        ),
      ))
    × (state after ≡ (apply members_of machine (map logged commands)).0.inner.state)
serve_connection-apply_example =
    serve_connection-apply raft state raft-Leads members_of request_codec response_codec
      message_pack commands 9 default_snapshot stream (frame 1) machine refl refl framed written
      (omega arith) (omega arith)
