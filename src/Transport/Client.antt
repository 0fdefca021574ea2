-- ===== src/Transport/Client.antt =====
-- `client_write_remote_with_hint`, `client_write_remote` and the calls of `RaftNetwork` of
-- `crates/ganglion-openraft/src/openraft_runtime/tcp.rs`. The dial is an argument.
pub mod Forwarded
use ganglion.Prelude.{ℕ, Option, Result, ok, err}
use ganglion.Adapter.Error.{OpenraftAdapterError, not_leader, storage}
use ganglion.Openraft.Command.{MetadataRaftCommand, MetadataRaftResponse}
use ganglion.Transport.Stream.{ErrorKind, Stream, await}
use ganglion.Transport.Frame.{WireFormat, WireCodec, write_frame, read_frame}
use ganglion.Transport.Wire.{
  RaftTypes, RaftError, Infallible, WriteFailure, mismatched_variant, forward_failed,
  RemoteWriteError, not_the_leader, other_failure, WireRequest, append_entries_request,
  vote_request, install_snapshot_request, client_write_request, WireResponse,
  append_entries_response, vote_response, install_snapshot_response, client_write_response,
}
use ganglion.Transport.Connection.{Connection, CallEnvironment, call}

-- `RPCError`: the peer could not be reached, it answered with an error of its own, or with the
-- reply to another request.
pub data RpcError (E : Type 0) : Type 0 where
  unreachable : ErrorKind → RpcError E
  remote_error : ℕ → E → RpcError E
  mismatched_response : ℕ → RpcError E

abbrev remote_reply : {E A : Type 0} → ℕ → Result E A → Result (RpcError E) A
remote_reply target (ok response) = ok response
remote_reply target (err e) = err (remote_error target e)

module _ {t : RaftTypes} (requests : WireCodec (WireRequest t))
    (responses : WireCodec (WireResponse t)) where
  -- The futures of `client_write_remote_with_hint`.
  abbrev forward :
      Result ErrorKind Stream → MetadataRaftCommand → WireFormat → Result ErrorKind (WireResponse t)
  forward (err e) command format = err e
  forward (ok stream) command format =
      (await (write_frame requests format (client_write_request command) stream)
        (λ _ s. read_frame responses s)).0

  unfoldable pub client_write_remote_with_hint :
      Result ErrorKind Stream
      → MetadataRaftCommand
      → WireFormat
      → Result RemoteWriteError MetadataRaftResponse
  client_write_remote_with_hint dialed command format = elim (forward dialed command format) [
    | ok (client_write_response result) ↦ result
    | ok _ ↦ err (other_failure mismatched_variant)
    | err e ↦ err (other_failure (forward_failed e))
  ]

  unfoldable client_write_remote :
      Result ErrorKind Stream
      → MetadataRaftCommand
      → WireFormat
      → Result (OpenraftAdapterError WriteFailure) MetadataRaftResponse
  unfolding client_write_remote_with_hint
  client_write_remote dialed command format =
      elim (client_write_remote_with_hint dialed command format) [
        | ok response ↦ ok response
        | err (not_the_leader leader_addr) ↦ err not_leader
        | err (other_failure message) ↦ err (storage message)
      ]

  pub append_entries :
      Connection
      → t.AppendEntriesRequest
      → CallEnvironment
      → Result (RpcError (RaftError t.Fatal Infallible)) t.AppendEntriesResponse × Connection
  unfolding call
  append_entries connection rpc env =
      let (result, after) = call requests responses connection (append_entries_request rpc) env in
      (
        elim result [
          | err e ↦ err (unreachable e)
          | ok (append_entries_response reply) ↦ remote_reply connection.target reply
          | ok _ ↦ err (mismatched_response connection.target)
        ],
        after,
      )

  pub vote :
      Connection
      → t.VoteRequest
      → CallEnvironment
      → Result (RpcError (RaftError t.Fatal Infallible)) t.VoteResponse × Connection
  unfolding call
  vote connection rpc env =
      let (result, after) = call requests responses connection (vote_request rpc) env in
      (
        elim result [
          | err e ↦ err (unreachable e)
          | ok (vote_response reply) ↦ remote_reply connection.target reply
          | ok _ ↦ err (mismatched_response connection.target)
        ],
        after,
      )

  pub install_snapshot :
      Connection
      → t.InstallSnapshotRequest
      → CallEnvironment
      → Result (RpcError (RaftError t.Fatal t.InstallSnapshotError)) t.InstallSnapshotResponse
        × Connection
  unfolding call
  install_snapshot connection rpc env =
      let (result, after) = call requests responses connection (install_snapshot_request rpc) env in
      (
        elim result [
          | err e ↦ err (unreachable e)
          | ok (install_snapshot_response reply) ↦ remote_reply connection.target reply
          | ok _ ↦ err (mismatched_response connection.target)
        ],
        after,
      )
