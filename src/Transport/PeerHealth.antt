-- ===== src/Transport/PeerHealth.antt =====
-- `PeerHealth` of `crates/ganglion-openraft/src/openraft_runtime/peer_health.rs`: the map in the
-- watch channel, with whether its receivers are notified. An `Instant` is a number.
pub mod Bounded
pub mod Streak
use ganglion.Prelude.{
  ℕ, Option, some, none, Bool, true, false, List, [], ◌∷◌, ◌&&◌, not, leb, if◌then◌else◌, length,
  saturating_add, Result, ok, err, nat_ord,
}
use ganglion.BTreeMap.{BTreeMap, get, insert, remove, contains_key, is_some}
use ganglion.Transport.Stream.{
  ErrorKind, connection_refused, connection_reset, connection_aborted, broken_pipe, unexpected_eof,
}

pub record PeerTransportFailure : Type 0 where
  pub since : ℕ
  pub latest : ℕ
  pub attempts : ℕ
  pub kind : ErrorKind

abbrev pub Failures : Type 0
Failures = BTreeMap ℕ PeerTransportFailure

unfoldable pub explicit_failure : ErrorKind → Bool
explicit_failure connection_refused = true
explicit_failure connection_reset = true
explicit_failure connection_aborted = true
explicit_failure broken_pipe = true
explicit_failure unexpected_eof = true
explicit_failure _ = false

abbrev pub max_peers : ℕ
max_peers = 256

-- `entry(peer).or_insert(…)`
abbrev pub entry_or_insert : Failures → ℕ → ErrorKind → ℕ → PeerTransportFailure
entry_or_insert failures peer kind now = elim (get peer failures) [
  | some failure ↦ failure
  | none ↦ record { since = now; latest = now; attempts = 0; kind = kind }
]

-- `record`, with what the closure returns.
unfoldable pub record_observation : Failures → ℕ → Option ErrorKind → ℕ → Failures × Bool
record_observation failures peer none now = (remove peer failures, contains_key peer failures)
record_observation failures peer (some kind) now =
    if not (contains_key peer failures) && leb max_peers (length failures)
    then (failures, false)
    else let failure = entry_or_insert failures peer kind now in
      (
        insert peer
            (record {
              since = failure.since;
              latest = now;
              attempts = saturating_add failure.attempts 1;
              kind = kind;
            })
            failures,
        true,
      )

-- `observe`, at the time of the call.
unfoldable pub observe : {A : Type 0} → Failures → ℕ → Result ErrorKind A → ℕ → Failures × Bool
unfolding record_observation explicit_failure
observe failures peer (ok a) now = record_observation failures peer none now
observe failures peer (err kind) now =
    if explicit_failure kind
    then record_observation failures peer (some kind) now
    else (failures, false)

-- An outcome of a call to a peer, at a time.
pub record Observation : Type 0 where
  pub peer : ℕ
  pub outcome : Result ErrorKind (Unit {0})
  pub now : ℕ

pub observe_all : List Observation → Failures → Failures
unfolding observe
observe_all [] failures = failures
observe_all (o ∷ rest) failures = observe_all rest (observe failures o.peer o.outcome o.now).0
