-- ===== src/Transport/PeerHealth/Bounded.antt =====
-- The peers that are tracked, and what is known of each.
use ganglion.Prelude.{
  ℕ, ◌≤◌, Option, some, none, List, [], ◌∷◌, arith, length, saturating_add, Result, ok, err,
  nat_ord,
}
use ganglion.BTreeMap.Sorted.{IsSorted, insert-IsSorted, remove-IsSorted}
use ganglion.BTreeMap.Sizes.{length-insert, length-insert_present, length-remove}
use ganglion.Transport.Stream.{ErrorKind}
use ganglion.Transport.PeerHealth.{
  Failures, max_peers, entry_or_insert, record_observation, observe, Observation, observe_all,
}

abbrev IsBounded : Failures → Type 0
IsBounded failures = IsSorted failures × (length failures ≤ max_peers)

record_observation-IsBounded :
    (failures : Failures) (peer : ℕ) (kind : Option ErrorKind) (now : ℕ)
    → IsBounded failures
    → IsBounded (record_observation failures peer kind now).0
unfolding record_observation
record_observation-IsBounded failures peer none now h =
    (remove-IsSorted peer failures h.0, omega (arith, length-remove peer failures, h.1))
record_observation-IsBounded failures peer (some kind) now h =
    let failure = entry_or_insert failures peer kind now in
    let entry = record failure {
      latest = now;
      attempts = saturating_add failure.attempts 1;
      kind = kind;
    } in
    ground (
      arith,
      insert-IsSorted peer entry failures h.0,
      length-insert peer entry failures,
      length-insert_present peer entry failures h.0,
    )

observe-IsBounded :
    (failures : Failures) (peer : ℕ) (outcome : Result ErrorKind (Unit {0})) (now : ℕ)
    → IsBounded failures
    → IsBounded (observe failures peer outcome now).0
unfolding observe
observe-IsBounded failures peer (ok a) now h = record_observation-IsBounded failures peer none now h
observe-IsBounded failures peer (err kind) now h =
    ground (arith, record_observation-IsBounded failures peer (some kind) now h)

-- However many calls are observed, of however many peers, no more than 256 peers are tracked, each
-- once, if that held before.
observe_all-IsBounded :
    (observations : List Observation) (failures : Failures)
    → IsBounded failures
    → IsBounded (observe_all observations failures)
unfolding observe_all
observe_all-IsBounded [] failures h = h
observe_all-IsBounded (o ∷ rest) failures h =
    observe_all-IsBounded rest (observe failures o.peer o.outcome o.now).0
      (observe-IsBounded failures o.peer o.outcome o.now h)
