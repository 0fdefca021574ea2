-- ===== src/Transport/Connection/Kept.antt =====
-- Which streams a call keeps, and what it leaves known of the peer.
use mathlib.Core.Path.{subst}
use ganglion.Prelude.{
  ℕ, Option, some, none, true, false, ◌&&◌, not, ◌≡◌, ◌⊎◌, refl, arith, Result, ok, err,
  Result-cases, Bool-cases, Option-cases, inl, inr, nat_ord,
}
use ganglion.BTreeMap.{get}
use ganglion.BTreeMap.Sorted.{get-remove_self}
use ganglion.Transport.Stream.{ErrorKind, timed_out, Stream}
use ganglion.Transport.Frame.{WireFormat, WireCodec, write_frame, read_frame}
use ganglion.Transport.Wire.{RaftTypes, WireRequest, WireResponse}
use ganglion.Transport.PeerHealth.{Failures, observe, record_observation}
use ganglion.Transport.Connection.{
  Connection, IdleEvent, fatal_response, matching, CallEnvironment, exchange, on_stream, unparked,
  try_call, observed, settle, explicitly_failed, call,
}

-- A stream is left only after a reply of the kind asked for that is not fatal.
abbrev pub IsKept :
    {t : RaftTypes} → WireRequest t → Result ErrorKind (WireResponse t) → Option Stream → Type 0
IsKept {t} request result kept =
    (kept ≡ none)
    ⊎ ((response : WireResponse t) × ((result ≡ ok response)
          × ((matching request response ≡ true) × (fatal_response response ≡ false))))

observe-ok :
    {A : Type 0} (failures : Failures) (peer : ℕ) (a : A) (now : ℕ)
    → get peer (observe failures peer (ok a) now).0 ≡ none
unfolding observe record_observation
observe-ok failures peer a now = get-remove_self peer failures

module _ {t : RaftTypes} (requests : WireCodec (WireRequest t))
    (responses : WireCodec (WireResponse t)) where
  exchange-IsKept :
      (format : WireFormat) (request : WireRequest t) (stream : Stream)
      → let (result, kept) = exchange requests responses format request stream in
        IsKept request result kept
  unfolding exchange
  exchange-IsKept format request stream =
      let (written, s1) = write_frame requests format request stream in
      let (reply, s2) = read_frame responses s1 in
      elim (Result-cases written) [
        | inl (e, unwritten) ↦ inl (ground arith)
        | inr (done, sent) ↦ elim (Result-cases reply) [
          | inl (e, unread) ↦ inl (ground arith)
          | inr (response, got) ↦
              elim (Bool-cases (not (fatal_response response) && matching request response)) [
                | inl fits ↦ inr (response, ground arith)
                | inr stray ↦ inl (ground arith)
              ]
        ]
      ]

  on_stream-IsKept :
      (c : Connection) (request : WireRequest t) (opened : Result ErrorKind Stream)
      → c.stream ≡ none
      → c.idle ≡ none
      → let (result, after) = on_stream requests responses c request opened in
        (after.idle ≡ none) × (IsKept request result after.stream × (after.target ≡ c.target))
  unfolding on_stream
  on_stream-IsKept c request (err e) s i = (i, (inl s, refl))
  on_stream-IsKept c request (ok stream) s i = (i, (exchange-IsKept c.format request stream, refl))

  try_call-IsKept :
      (c : Connection) (request : WireRequest t) (event : IdleEvent) (now : ℕ)
      (dial : Result ErrorKind Stream)
      → let (result, after) = try_call requests responses c request event now dial in
        (after.idle ≡ none) × (IsKept request result after.stream × (after.target ≡ c.target))
  unfolding try_call
  try_call-IsKept c request event now dial =
      let (taken, health) = unparked c now event in
      on_stream-IsKept (record c { stream = none; idle = none; health = health }) request
        (elim taken [ none ↦ dial | some stream ↦ ok stream ]) refl refl

  -- What `call` promises of its result and the connection after it.
  abbrev IsSettled : WireRequest t → Result ErrorKind (WireResponse t) × Connection → Type 0
  IsSettled request (result, after) =
      (IsKept request result after.stream × IsKept request result after.idle)
      × (((e : ErrorKind) × (result ≡ err e)) ⊎ (get after.target after.health ≡ none))

  settle-IsSettled :
      (c : Connection) (request : WireRequest t) (result : Result ErrorKind (WireResponse t))
      (now : ℕ)
      → c.idle ≡ none
      → IsKept request result c.stream
      → IsSettled request
          (settle requests responses (result, observed requests responses c result now))
  settle-IsSettled c request (err e) now i k = ((inl refl, inl i), inl (e, refl))
  settle-IsSettled c request (ok response) now i k =
      let unsuspected = observe-ok c.health c.target response now in
      elim (Bool-cases c.monitor_idle) [
        | inr off ↦ rw off ((k, inl i), inr unsuspected)
        | inl on ↦ elim (Option-cases c.stream) [
          | inl closed ↦ rw (on, closed) ((inl closed, inl i), inr unsuspected)
          | inr (stream, open_) ↦
              rw (on, open_)
                ((inl refl, subst (IsKept request (ok response)) open_ k), inr unsuspected)
        ]
      ]

  -- Between calls a stream is kept, or parked, only after a reply of the kind asked for that is
  -- not fatal; after a call that failed none is. After a reply the peer is not suspected.
  pub call-IsKept :
      (c after : Connection) (request : WireRequest t) (env : CallEnvironment)
      (result : Result ErrorKind (WireResponse t))
      → call requests responses c request env ≡ (result, after)
      → (IsKept request result after.stream × IsKept request result after.idle)
        × (((e : ErrorKind) × (result ≡ err e)) ⊎ (get after.target after.health ≡ none))
  unfolding call
  call-IsKept c after request env result h =
      let (first, c1) =
        try_call requests responses c request env.idle_event env.idle_time env.first_dial in
      let k1 = try_call-IsKept c request env.idle_event env.idle_time env.first_dial in
      let seen = observed requests responses c1 first env.first_time in
      let (second, c2) =
        try_call requests responses seen request env.idle_event env.idle_time env.second_dial in
      let k2 = try_call-IsKept seen request env.idle_event env.idle_time env.second_dial in
      subst (IsSettled request) h (elim (Bool-cases (explicitly_failed requests responses first)) [
        | inr fine ↦ rw fine (settle-IsSettled c1 request first env.first_time k1.0 k1.1.0)
        | inl failed ↦ elim (Bool-cases env.second_in_time) [
          | inl timely ↦
              rw (failed, timely) (settle-IsSettled c2 request second env.second_time k2.0 k2.1.0)
          | inr late ↦
              rw (failed, late)
                (settle-IsSettled (record seen { stream = none; idle = none }) request
                  (err timed_out) env.second_time refl (inl refl))
        ]
      ])
