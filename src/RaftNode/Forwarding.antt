-- ===== src/RaftNode/Forwarding.antt =====
-- Writes that other nodes forward to the leader, from the frames on a connection to the replicated
-- state machine: `serve_connection` of `tcp.rs` with the state machine of `storage.rs` behind
-- openraft, both in `crates/ganglion-openraft/src/openraft_runtime`.
mod Tests
use mathlib.Core.Path.{subst}
use ganglion.Prelude.{
  ℕ, ◌-◌, ◌≤◌, ◌<◌, Option, some, none, List, [], ◌∷◌, ◌++◌, ◌≡◌, refl, sym, ap, ◌∙◌, arith, map,
  length, ok,
}
use ganglion.Core.Model.{CoordinationSnapshot}
use ganglion.Openraft.Command.{MetadataRaftCommand, MetadataRaftResponse, LogId, normal, Entry}
use ganglion.Openraft.Machine.{
  StateMachineInner, GanglionStateMachine, apply_payload, apply_entries, apply,
}
use ganglion.Transport.Stream.{Bytes, unexpected_eof, Stream}
use ganglion.Transport.Frame.{WireFormat, WireCodec}
use ganglion.Transport.Wire.{
  RaftTypes, WireRequest, client_write_request, WireResponse, client_write_response,
}
use ganglion.Transport.Server.{Raft, remote_result, respond, serve_connection}
use ganglion.Transport.Server.Answers.{Framed, Written, answers, serve_connection-answers}
use ganglion.RaftNode.{response_to}

-- openraft on the leader: a command that it is given is committed and applied before it answers,
-- and its answer is that of the state machine.
abbrev pub Leads : {t : RaftTypes} → {R : Type 0} → Raft t R → (R → CoordinationSnapshot) → Type 0
Leads {t} {R} raft state =
    (core : R) (command : MetadataRaftCommand)
    → ((raft.client_write core command).0 ≡ ok (response_to (state core) command))
      × (state (raft.client_write core command).1 ≡ (response_to (state core) command).snapshot)

-- A command as it stands in the log, as a request, and the reply to it as a response.
module _ {L M : Type 0} where
  abbrev pub logged : LogId L × MetadataRaftCommand → Entry L M
  logged (id, command) = record { log_id = id; payload = normal command }

abbrev pub forwarded :
    {t : RaftTypes} → {L : Type 0} → LogId L × MetadataRaftCommand → WireRequest t
forwarded (id, command) = client_write_request command

abbrev pub answered : {t : RaftTypes} → MetadataRaftResponse → WireResponse t
answered reply = client_write_response (ok reply)

module _ {t : RaftTypes} {R L M S : Type 0} (raft : Raft t R) (state : R → CoordinationSnapshot)
    (leads : Leads raft state) (stored_membership : Option (LogId L) → M → S) where
  answers-apply_entries :
      (commands : List (LogId L × MetadataRaftCommand)) (core : R) (inner : StateMachineInner L S)
      → state core ≡ inner.state
      → let run = apply_entries stored_membership inner (map logged commands) in
        ((answers raft core (map forwarded commands)).0 ≡ map answered run.1)
        × (state (answers raft core (map forwarded commands)).1 ≡ run.0.state)
  unfolding apply_entries apply_payload respond
  answers-apply_entries [] core inner e = (refl, e)
  answers-apply_entries ((id, command) ∷ commands) core inner e =
      let (replied, left) = leads core command in
      let next = (apply_payload stored_membership inner id (normal command)).0 in
      let after = (raft.client_write core command).1 in
      let (others, last) =
        answers-apply_entries commands after next
          (left ∙ ap (λ s. (response_to s command).snapshot) e) in
      let reply = replied ∙ ap (λ s. ok (response_to s command)) e in
      (λ i. client_write_response (remote_result (reply i)) ∷ others i, last)

  -- A connection that carries forwarded writes to the leader, and that the peer then closes, leaves
  -- what the state machine leaves that applies the commands as one batch of log entries: the core
  -- has its state, and the bytes written are its replies, in order, also those that reject. The
  -- leader commits what it is given, there is room for the replies, and the fuel is above the
  -- number of bytes to read.
  pub serve_connection-apply :
      (requests : WireCodec (WireRequest t)) (responses : WireCodec (WireResponse t))
      (format : WireFormat) (commands : List (LogId L × MetadataRaftCommand)) (fuel : ℕ) (core : R)
      (s : Stream) (sent : Bytes) (machine : GanglionStateMachine L S)
      → state core ≡ machine.inner.state
      → s.end ≡ unexpected_eof
      → Framed requests (map forwarded commands) s.incoming
      → Written responses format
          (map answered (apply stored_membership machine (map logged commands)).1)
          sent
      → length sent ≤ s.room
      → length s.incoming < fuel
      → (after : R) × (serve_connection raft requests responses format fuel core s
          ≡ some (
            ok tt,
            (
              after,
              record s {
                incoming = [];
                outgoing = s.outgoing ++ sent;
                room = s.room - length sent;
              },
            ),
          ))
        × (state after ≡ (apply stored_membership machine (map logged commands)).0.inner.state)
  unfolding apply
  serve_connection-apply requests responses format commands fuel core s sent machine e eof framed
        written room enough =
      let (replies, final) = answers-apply_entries commands core machine.inner e in
      (
        (answers raft core (map forwarded commands)).1,
        serve_connection-answers raft requests responses format (map forwarded commands) fuel core s
            sent eof framed
            (subst (λ (rs : List (WireResponse t)). Written responses format rs sent) (sym replies)
              written)
            room enough,
        final,
      )
