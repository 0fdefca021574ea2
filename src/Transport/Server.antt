-- ===== src/Transport/Server.antt =====
-- `serve_connection` of `crates/ganglion-openraft/src/openraft_runtime/tcp.rs`. The `Raft` handle is
-- a parameter, with a state of its own. The loop is a recursion on fuel, which the bytes of the
-- stream bound.
pub mod Termination
pub mod Answers
use ganglion.Prelude.{
  ℕ, zero, suc, Option, some, none, Bool, true, false, if◌then◌else◌, Result, ok, err,
}
use ganglion.Core.Model.{Str}
use ganglion.Openraft.Command.{MetadataRaftCommand, MetadataRaftResponse}
use ganglion.Transport.Stream.{ErrorKind, unexpected_eof, Stream}
use ganglion.Transport.Frame.{WireFormat, WireCodec, write_frame, read_frame}
use ganglion.Transport.Wire.{
  RaftTypes, RaftError, Infallible, RemoteWriteError, not_the_leader, other_failure, raft_failure,
  WireRequest, append_entries_request, vote_request, install_snapshot_request, client_write_request,
  WireResponse, append_entries_response, vote_response, install_snapshot_response,
  client_write_response,
}

-- What `client_write` fails with: `forward_to_leader()` gives the address of the leader, if one is
-- known, or the error is another, with its text.
pub data ClientWriteError : Type 0 where
  forward_to_leader : Option Str → ClientWriteError
  other_write_error : Str → ClientWriteError

pub record Raft (t : RaftTypes) (R : Type 0) : Type 0 where
  pub append_entries :
      R → t.AppendEntriesRequest → Result (RaftError t.Fatal Infallible) t.AppendEntriesResponse × R
  pub vote : R → t.VoteRequest → Result (RaftError t.Fatal Infallible) t.VoteResponse × R
  pub install_snapshot :
      R
      → t.InstallSnapshotRequest
      → Result (RaftError t.Fatal t.InstallSnapshotError) t.InstallSnapshotResponse × R
  pub client_write : R → MetadataRaftCommand → Result ClientWriteError MetadataRaftResponse × R

abbrev pub remote_result :
    Result ClientWriteError MetadataRaftResponse → Result RemoteWriteError MetadataRaftResponse
remote_result (ok response) = ok response
remote_result (err (forward_to_leader leader_addr)) = err (not_the_leader leader_addr)
remote_result (err (other_write_error text)) = err (other_failure (raft_failure text))

-- `error.kind() == UnexpectedEof`
abbrev pub is_unexpected_eof : ErrorKind → Bool
is_unexpected_eof unexpected_eof = true
is_unexpected_eof _ = false

-- How a loop that is left ends, or that the fuel was used up.
abbrev Served : Type 0 → Type 0
Served R = Option (Result ErrorKind (Unit {0}) × (R × Stream))

module _ {t : RaftTypes} {R : Type 0} (raft : Raft t R) where
  -- The `match request` of the loop.
  unfoldable pub respond : R → WireRequest t → WireResponse t × R
  respond core (append_entries_request rpc) =
      let (result, after) = raft.append_entries core rpc in (append_entries_response result, after)
  respond core (vote_request rpc) =
      let (result, after) = raft.vote core rpc in (vote_response result, after)
  respond core (install_snapshot_request rpc) =
      let (result, after) = raft.install_snapshot core rpc in
      (install_snapshot_response result, after)
  respond core (client_write_request command) =
      let (result, after) = raft.client_write core command in
      (client_write_response (remote_result result), after)

  module _ (requests : WireCodec (WireRequest t)) (responses : WireCodec (WireResponse t))
      (format : WireFormat) where
    unfoldable pub serve_connection : ℕ → R → Stream → Served R
    unfolding respond
    serve_connection zero core s = none
    serve_connection (suc fuel) core s =
        let (request, s1) = read_frame requests s in
        elim request [
          | err e ↦ some (if is_unexpected_eof e then ok tt else err e, (core, s1))
          | ok request ↦
              let (response, after) = respond core request in
              let (written, s2) = write_frame responses format response s1 in
              elim written [
                | err e ↦ some (err e, (after, s2))
                | ok _ ↦ serve_connection fuel after s2
              ]
        ]
