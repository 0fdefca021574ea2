-- ===== src/Transport/Wire.antt =====
-- `WireRequest`, `WireResponse` and `RemoteWriteError` of
-- `crates/ganglion-openraft/src/openraft_runtime/tcp.rs`, with the types of openraft as parameters,
-- and what the code reads of openraft's errors.
use ganglion.Prelude.{Option, Result}
use ganglion.Core.Model.{Str}
use ganglion.Openraft.Command.{MetadataRaftCommand, MetadataRaftResponse}
use ganglion.Transport.Stream.{ErrorKind}

pub record RaftTypes : Type 1 where
  pub AppendEntriesRequest : Type 0
  pub AppendEntriesResponse : Type 0
  pub VoteRequest : Type 0
  pub VoteResponse : Type 0
  pub InstallSnapshotRequest : Type 0
  pub InstallSnapshotResponse : Type 0
  pub InstallSnapshotError : Type 0
  pub Fatal : Type 0

pub data Infallible : Type 0 where

pub data RaftError (F E : Type 0) : Type 0 where
  api_error : E → RaftError F E
  fatal : F → RaftError F E

-- The message of a failed write by its cause: the text of an error of openraft, or what the client
-- met on the way.
pub data WriteFailure : Type 0 where
  raft_failure : Str → WriteFailure
  mismatched_variant : WriteFailure
  forward_failed : ErrorKind → WriteFailure

pub data RemoteWriteError : Type 0 where
  not_the_leader : Option Str → RemoteWriteError
  other_failure : WriteFailure → RemoteWriteError

module _ (t : RaftTypes) where
  pub data WireRequest : Type 0 where
    append_entries_request : t.AppendEntriesRequest → WireRequest
    vote_request : t.VoteRequest → WireRequest
    install_snapshot_request : t.InstallSnapshotRequest → WireRequest
    client_write_request : MetadataRaftCommand → WireRequest

  pub data WireResponse : Type 0 where
    append_entries_response :
        Result (RaftError t.Fatal Infallible) t.AppendEntriesResponse → WireResponse
    vote_response : Result (RaftError t.Fatal Infallible) t.VoteResponse → WireResponse
    install_snapshot_response :
        Result (RaftError t.Fatal t.InstallSnapshotError) t.InstallSnapshotResponse → WireResponse
    client_write_response : Result RemoteWriteError MetadataRaftResponse → WireResponse
