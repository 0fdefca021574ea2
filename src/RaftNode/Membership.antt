-- ===== src/RaftNode/Membership.antt =====
-- The calls of `RaftMetadataNode` of `crates/ganglion-openraft/src/openraft_runtime/node.rs` that
-- form the raft group, wait for it, and show it. What openraft answers, and its metrics, are
-- arguments.
use ganglion.Prelude.{
  ℕ, ◌≤◌, ◌⊎◌, inl, inr, Option, some, none, Bool, true, false, List, [], ◌≡◌, arith, leb, map,
  Result, ok, err, Result-cases, Option-cases, Ordering, nat_ord,
}
use ganglion.BTreeMap.{BTreeMap, BTreeSet, extend, is_some}
use ganglion.Core.Model.{Str, CoordinationSnapshot}
use ganglion.Adapter.Error.{config, storage, leader_vanished, raft_text}
use ganglion.Openraft.Command.{LogId}
use ganglion.RaftNode.{RaftNodeError, ClientWriteError, map_membership_error}

-- What the code reads of openraft's metrics: whether raft runs, the leader, the ids and the
-- addresses of the membership, and two log ids.
pub record RaftMetrics (L : Type 0) : Type 0 where
  pub running : Bool
  pub current_leader : Option ℕ
  pub voter_ids : List ℕ
  pub learner_ids : List ℕ
  pub nodes : BTreeMap ℕ Str
  pub last_applied : Option (LogId L)
  pub snapshot : Option (LogId L)

pub record RaftTopology : Type 0 where
  pub local_id : ℕ
  pub leader : Option ℕ
  pub voters : List ℕ
  pub learners : List ℕ
  pub nodes : BTreeMap ℕ Str
  pub last_applied_index : Option ℕ
  pub snapshot_index : Option ℕ
  pub committed_generation : ℕ

pub record StorageTelemetrySnapshot : Type 0 where
  pub appended_records : ℕ
  pub appended_batches : ℕ
  pub fsyncs : ℕ
  pub compactions : ℕ
  pub replayed_records_last_open : ℕ
  pub snapshot_persists : ℕ
  pub snapshot_loads : ℕ

abbrev index_of : {L : Type 0} → Option (LogId L) → Option ℕ
index_of none = none
index_of (some id) = some id.index

unfoldable pub topology : {L : Type 0} → ℕ → RaftMetrics L → CoordinationSnapshot → RaftTopology
topology id metrics committed = record {
  local_id = id;
  leader = metrics.current_leader;
  voters = metrics.voter_ids;
  learners = metrics.learner_ids;
  nodes = metrics.nodes;
  last_applied_index = index_of metrics.last_applied;
  snapshot_index = index_of metrics.snapshot;
  committed_generation = committed.generation;
}

-- The counters of the state machine, and those of the log where the node has a durable one.
unfoldable pub telemetry :
    StorageTelemetrySnapshot → Option StorageTelemetrySnapshot → StorageTelemetrySnapshot
telemetry sm none = sm
telemetry sm (some log) = record log {
  snapshot_persists = sm.snapshot_persists;
  snapshot_loads = sm.snapshot_loads;
}

abbrev pub is_leader : ℕ → Option ℕ → Bool
is_leader id none = false
is_leader id (some leader) = elim (nat_ord.cmp leader id) [ Ordering.eq ↦ true | _ ↦ false ]

-- `.map(|_| ())` and `.map_err(..)` on an answer of openraft.
abbrev pub answer : {E A F : Type 0} → (E → F) → Result E A → Result F (Unit {0})
answer f (ok _) = ok tt
answer f (err e) = err (f e)

abbrev pub Answer : Type 0
Answer = Result RaftNodeError (Unit {0})

abbrev add_learner : {A : Type 0} → Result ClientWriteError A → Answer
add_learner result = answer map_membership_error result

-- The voters are collected into a set before openraft is called.
abbrev change_membership :
    {A : Type 0} → (BTreeSet ℕ → Bool → Result ClientWriteError A) → List ℕ → Bool → Answer
change_membership raft voters retain =
    answer map_membership_error (raft (extend [] (map (λ id. (id, tt)) voters)) retain)

abbrev ensure_linearizable : {A : Type 0} → Result Str A → Answer
ensure_linearizable result = answer storage result

-- `raft.wait(Some(timeout))`: until a condition holds of the metrics, or until there is a given
-- leader. An error is the text of a timeout or of raft's end.
pub record Wait (L : Type 0) : Type 0 where
  pub metrics : (RaftMetrics L → Bool) → Result Str (RaftMetrics L)
  pub current_leader : ℕ → Result Str (RaftMetrics L)

-- A wait that ends without an error ends with metrics that meet its condition.
abbrev Awaits : {L : Type 0} → Wait L → Type 0
Awaits {L} wait =
    (condition : RaftMetrics L → Bool) (m : RaftMetrics L)
    → wait.metrics condition ≡ ok m
    → condition m ≡ true

-- `Option`'s order: no applied entry is before every index.
abbrev at_least : {L : Type 0} → ℕ → RaftMetrics L → Bool
at_least index m = elim m.last_applied [ none ↦ false | some id ↦ leb index id.index ]

module _ {L : Type 0} (wait : Wait L) where
  unfoldable wait_for_leader : ℕ → Answer
  wait_for_leader leader = answer (λ text. config (raft_text text)) (wait.current_leader leader)

  unfoldable wait_for_any_leader : Result RaftNodeError ℕ
  wait_for_any_leader = elim (wait.metrics (λ m. is_some m.current_leader)) [
    | err text ↦ err (config (raft_text text))
    | ok m ↦ elim m.current_leader [ none ↦ err (config leader_vanished) | some leader ↦ ok leader ]
  ]

  unfoldable wait_for_applied_index : ℕ → Answer
  wait_for_applied_index index =
      answer (λ text. config (raft_text text)) (wait.metrics (at_least index))

  -- Where openraft's waits end only when their condition holds, the wait for any leader gives a
  -- leader or the error of the wait: it never finds that the leader vanished.
  wait_for_any_leader-Awaits :
      Awaits wait
      → ((leader : ℕ) × (wait_for_any_leader ≡ ok leader))
        ⊎ ((text : Str) × (wait_for_any_leader ≡ err (config (raft_text text))))
  unfolding wait_for_any_leader
  wait_for_any_leader-Awaits awaits =
      elim (Result-cases (wait.metrics (λ m. is_some m.current_leader))) [
        | inl (text, failed) ↦ inr (text, ground arith)
        | inr (m, ended) ↦ elim (Option-cases m.current_leader) [
          | inl nobody ↦ absurd (ground (arith, awaits (λ n. is_some n.current_leader) m ended))
          | inr (leader, led) ↦ inl (leader, ground arith)
        ]
      ]

  -- Where openraft's waits end only when their condition holds, a wait for an index that returns
  -- has seen an applied entry with that index or a later one.
  wait_for_applied_index-Awaits :
      (index : ℕ)
      → Awaits wait
      → wait_for_applied_index index ≡ ok tt
      → (m : RaftMetrics L) × (id : LogId L) × (m.last_applied ≡ some id) × (index ≤ id.index)
  unfolding wait_for_applied_index
  wait_for_applied_index-Awaits index awaits h =
      elim (Result-cases (wait.metrics (at_least index))) [
        | inl (text, failed) ↦ absurd (ground arith)
        | inr (m, ended) ↦ elim (Option-cases m.last_applied) [
          | inl nothing ↦ absurd (ground (arith, awaits (at_least index) m ended))
          | inr (id, applied) ↦ (m, id, applied, ground (arith, awaits (at_least index) m ended))
        ]
      ]
