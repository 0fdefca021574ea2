-- ===== src/Transport/Connection.antt =====
-- `DialerRaftConnection` of `crates/ganglion-openraft/src/openraft_runtime/tcp.rs`: a call to a peer
-- over a connection that is kept, dialed again and watched while it is idle. What the dialer gives,
-- what happens to an idle stream and when a probe times out is chosen by the environment.
pub mod Kept
use ganglion.Prelude.{
  ℕ, Option, some, none, Bool, true, false, ◌&&◌, not, if◌then◌else◌, Result, ok, err,
}
use ganglion.Transport.Stream.{ErrorKind, unexpected_eof, timed_out, Stream, await}
use ganglion.Transport.Frame.{WireFormat, WireCodec, write_frame, read_frame}
use ganglion.Transport.Wire.{
  RaftTypes, RaftError, api_error, fatal, Infallible, WireRequest, append_entries_request,
  vote_request, install_snapshot_request, client_write_request, WireResponse,
  append_entries_response, vote_response, install_snapshot_response, client_write_response,
}
use ganglion.Transport.PeerHealth.{Failures, explicit_failure, observe}

pub record Connection : Type 0 where
  pub target : ℕ
  pub format : WireFormat
  pub stream : Option Stream
  -- The stream that the idle task owns.
  pub idle : Option Stream
  pub health : Failures
  pub monitor_idle : Bool

-- What the idle task meets before the next call stops it: nothing, a byte, or an error or the end,
-- after which it probes the peer: the dial ends, with a stream or an error, or it does not end in
-- time.
pub data IdleEvent : Type 0 where
  quiet unexpected_byte : IdleEvent
  closed : ErrorKind → Option (Result ErrorKind Stream) → IdleEvent

-- `IdleStream::acquire`: what the task returns, and what it observed. The end of the stream is read
-- as `UnexpectedEof`.
unfoldable pub acquire : ℕ → Stream → Failures → ℕ → IdleEvent → Option Stream × Failures
acquire target stream health now quiet = (some stream, health)
acquire target stream health now unexpected_byte = (none, health)
acquire target stream health now (closed kind probe) =
    if not (explicit_failure kind)
    then (none, health)
    else let seen = (observe {A = Unit {0}} health target (err kind) now).0 in
      elim probe [
        | none ↦ (none, seen)
        | some (ok dialed) ↦ (some dialed, seen)
        | some (err e) ↦ (none, (observe {A = Unit {0}} seen target (err e) now).0)
      ]

-- The stream that an attempt takes, and the health, after the idle task gave the stream back.
abbrev pub unparked : Connection → ℕ → IdleEvent → Option Stream × Failures
unparked connection now event = elim connection.idle [
  | none ↦ (connection.stream, connection.health)
  | some idle ↦ acquire connection.target idle connection.health now event
]

abbrev is_fatal : {F E A : Type 0} → Result (RaftError F E) A → Bool
is_fatal (err (fatal f)) = true
is_fatal (err (api_error e)) = false
is_fatal (ok a) = false

abbrev pub fatal_response : {t : RaftTypes} → WireResponse t → Bool
fatal_response (append_entries_response result) = is_fatal result
fatal_response (vote_response result) = is_fatal result
fatal_response (install_snapshot_response result) = is_fatal result
fatal_response (client_write_response result) = false

-- A reply to a client write is not one of the pairs.
abbrev pub matching : {t : RaftTypes} → WireRequest t → WireResponse t → Bool
matching (append_entries_request rpc) (append_entries_response result) = true
matching (vote_request rpc) (vote_response result) = true
matching (install_snapshot_request rpc) (install_snapshot_response result) = true
matching _ _ = false

-- The environment of a call: the idle task, the dials of the two attempts, whether the second
-- attempt ends in time, and the times at which outcomes are observed.
pub record CallEnvironment : Type 0 where
  pub idle_event : IdleEvent
  pub first_dial : Result ErrorKind Stream
  pub second_dial : Result ErrorKind Stream
  pub second_in_time : Bool
  pub idle_time : ℕ
  pub first_time : ℕ
  pub second_time : ℕ

module _ {t : RaftTypes} (requests : WireCodec (WireRequest t))
    (responses : WireCodec (WireResponse t)) where
  -- `try_call` from the stream that it takes or dials: the stream is kept after a matching reply
  -- that is not fatal.
  unfoldable pub exchange :
      WireFormat → WireRequest t → Stream → Result ErrorKind (WireResponse t) × Option Stream
  exchange format request stream =
      let (written, s1) = write_frame requests format request stream in
      let (reply, s2) = read_frame responses s1 in
      elim written [
        | err e ↦ (err e, none)
        | ok _ ↦ elim reply [
          | err e ↦ (err e, none)
          | ok response ↦ (
            ok response,
            if not (fatal_response response) && matching request response then some s2 else none,
          )
        ]
      ]

  -- The rest of `try_call`, once there is a stream or none could be dialed.
  unfoldable pub on_stream :
      Connection
      → WireRequest t
      → Result ErrorKind Stream
      → Result ErrorKind (WireResponse t) × Connection
  unfolding exchange
  on_stream connection request (err e) = (err e, connection)
  on_stream connection request (ok stream) =
      let (result, kept) = exchange connection.format request stream in
      (result, record connection { stream = kept })

  unfoldable pub try_call :
      Connection
      → WireRequest t
      → IdleEvent
      → ℕ
      → Result ErrorKind Stream
      → Result ErrorKind (WireResponse t) × Connection
  unfolding acquire on_stream
  try_call connection request event now dial =
      let (taken, health) = unparked connection now event in
      let after = record connection { stream = none; idle = none; health = health } in
      let opened : Result ErrorKind Stream = elim taken [ none ↦ dial | some stream ↦ ok stream ] in
      on_stream after request opened

  abbrev pub observed : Connection → Result ErrorKind (WireResponse t) → ℕ → Connection
  observed connection result now = record connection {
    health = (observe connection.health connection.target result now).0;
  }

  -- The end of `call`: a broken connection is dropped; after a reply the stream is parked, if idle
  -- streams are watched.
  abbrev pub settle :
      Result ErrorKind (WireResponse t) × Connection
      → Result ErrorKind (WireResponse t) × Connection
  settle (err e, connection) = (err e, record connection { stream = none })
  settle (ok response, connection) =
      if connection.monitor_idle
      then elim connection.stream [
        | none ↦ (ok response, connection)
        | some stream ↦ (ok response, record connection { stream = none; idle = some stream })
      ]
      else (ok response, connection)

  -- Whether `call` makes its second attempt.
  abbrev pub explicitly_failed : Result ErrorKind (WireResponse t) → Bool
  explicitly_failed (err e) = explicit_failure e
  explicitly_failed (ok response) = false

  unfoldable pub call :
      Connection → WireRequest t → CallEnvironment → Result ErrorKind (WireResponse t) × Connection
  unfolding try_call
  call connection request env =
      let (first, c1) = try_call connection request env.idle_event env.idle_time env.first_dial in
      let seen = observed c1 first env.first_time in
      if explicitly_failed first
      then (let (second, c2) = try_call seen request env.idle_event env.idle_time env.second_dial in
          let result : Result ErrorKind (WireResponse t) =
            if env.second_in_time then second else err timed_out in
          let left =
            if env.second_in_time then c2 else record seen { stream = none; idle = none } in
          settle (result, observed left result env.second_time))
      else settle (first, seen)
