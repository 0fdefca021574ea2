-- ===== src/Transport/PeerHealth/Streak.antt =====
-- What is tracked of one peer.
use ganglion.Prelude.{
  ℕ, ◌+◌, ◌≤◌, Option, some, none, List, [], ◌∷◌, ◌≡◌, refl, ap, ◌∙◌, arith, length, eqb,
  if◌then◌else◌, saturating_add, Result, ok, err, nat_ord,
}
use ganglion.BTreeMap.{get}
use ganglion.BTreeMap.Sorted.{get-insert_self, get-insert_ne, get-remove_self, get-remove_ne}
use ganglion.BTreeMap.Sizes.{length-insert, length-remove}
use ganglion.Transport.Stream.{ErrorKind}
use ganglion.Transport.PeerHealth.{
  PeerTransportFailure, Failures, explicit_failure, max_peers, entry_or_insert, record_observation,
  observe, Observation, observe_all,
}

-- A streak of explicit failures: since when, until when, how many and the last kind.
abbrev one_more : Option PeerTransportFailure → ErrorKind → ℕ → PeerTransportFailure
one_more none kind now = record { since = now; latest = now; attempts = 1; kind = kind }
one_more (some streak) kind now = record {
  since = streak.since;
  latest = now;
  attempts = saturating_add streak.attempts 1;
  kind = kind;
}

abbrev extended :
    Result ErrorKind (Unit {0}) → ℕ → Option PeerTransportFailure → Option PeerTransportFailure
extended (ok a) now streak = none
extended (err kind) now streak =
    if explicit_failure kind then some (one_more streak kind now) else streak

-- The streak of one peer: a success ends it, other errors and other peers do not touch it.
abbrev pub streak_of :
    ℕ → List Observation → Option PeerTransportFailure → Option PeerTransportFailure
streak_of peer [] streak = streak
streak_of peer (o ∷ rest) streak =
    streak_of peer rest (if eqb o.peer peer then extended o.outcome o.now streak else streak)

get-observe :
    (failures : Failures) (p peer : ℕ) (outcome : Result ErrorKind (Unit {0})) (now : ℕ)
    → length failures + 1 ≤ max_peers
    → (get p (observe failures peer outcome now).0
        ≡ (if eqb peer p then extended outcome now (get p failures) else get p failures))
      × (length (observe failures peer outcome now).0 ≤ length failures + 1)
unfolding observe record_observation
get-observe failures p peer (ok a) now h = ground (
  arith,
  get-remove_self peer failures,
  get-remove_ne peer p failures,
  length-remove peer failures,
)
get-observe failures p peer (err kind) now h =
    let failure = entry_or_insert failures peer kind now in
    let entry = record failure {
      latest = now;
      attempts = saturating_add failure.attempts 1;
      kind = kind;
    } in
    ground (
      arith,
      get-insert_self peer entry failures,
      get-insert_ne peer p entry failures,
      length-insert peer entry failures,
    )

-- As long as there is room for a peer with each observation, what is tracked of a peer is its
-- streak: the explicit failures since its last success, with the time of the first and the last
-- of them, their number, at most the maximum of a u64, and the last kind.
pub get-observe_all :
    (observations : List Observation) (failures : Failures) (peer : ℕ)
    → length failures + length observations ≤ max_peers
    → get peer (observe_all observations failures) ≡ streak_of peer observations (get peer failures)
unfolding observe_all
get-observe_all [] failures peer h = refl
get-observe_all (o ∷ rest) failures peer h =
    let (seen, size) = get-observe failures peer o.peer o.outcome o.now (omega arith) in
    get-observe_all rest (observe failures o.peer o.outcome o.now).0 peer (omega arith)
    ∙ ap (streak_of peer rest) seen
