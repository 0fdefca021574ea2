-- ===== src/Adapter/Consensus.antt =====
-- The trait `MetadataConsensus` of `crates/ganglion-openraft/src/lib.rs`, what a caller relies on,
-- and its two implementations.
pub mod Publish
use ganglion.Prelude.{
  ℕ, ◌≤◌, Option, some, none, Bool, true, List, [], ◌∷◌, ◌≡◌, ◌↔◌, ◌⊎◌, inl, inr, refl, ap, arith,
  ◌==◌, Result, ok, err, Result-cases,
}
use ganglion.Core.Model.{Str, option_str_eq, CoordinationSnapshot}
use ganglion.Core.Placement.{PlacementInput, PlacementError}
use ganglion.Storage.MemoryLog.{MetadataLogEntry}
use ganglion.Storage.MemoryLog as Memory
use ganglion.Storage.FileLog.{LineCodec}
use ganglion.Adapter.Error.{planner}
use ganglion.Adapter.Log.{MetadataLog, memory_log, file_log}
use ganglion.Adapter.Node.{MetadataNode, NodeError, new, apply_snapshot}
use ganglion.Adapter.Node as Node
use ganglion.Adapter.Node.Guards.{apply_snapshot-ok, apply_snapshot-err}
use ganglion.Adapter.Profile.Persisted.{PersistedMetadataNode}

pub record MetadataConsensus (N : Type 0) : Type 0 where
  pub local_node_id : N → Str
  pub leader_id : N → Option Str
  pub is_leader : N → Bool
  pub snapshot : N → CoordinationSnapshot
  pub apply_snapshot : N → Str → CoordinationSnapshot → Option ℕ → Result NodeError (Unit {0}) × N

-- What a caller relies on: an engine leads exactly when its own name is the leader's; a snapshot
-- that is applied was proposed by the leader, does not lower the generation, and is the one that the
-- engine holds from then on; one that is refused leaves the snapshot and the leader; and a proposer
-- who is not the leader is refused.
pub record IsConsensus {N : Type 0} (c : MetadataConsensus N) : Type 0 where
  pub is_leader-leader_id :
      (n : N) → (c.is_leader n ≡ true) ↔ (c.leader_id n ≡ some (c.local_node_id n))
  pub applied :
      (n after : N) (proposer : Str) (snapshot : CoordinationSnapshot) (term : Option ℕ)
      → c.apply_snapshot n proposer snapshot term ≡ (ok tt, after)
      → ((c.leader_id n ≡ some proposer) × ((c.snapshot n).generation ≤ snapshot.generation))
        × ((c.snapshot after ≡ snapshot) × (c.leader_id after ≡ c.leader_id n))
  pub refused :
      (n after : N) (proposer : Str) (snapshot : CoordinationSnapshot) (term : Option ℕ)
      (e : NodeError)
      → c.apply_snapshot n proposer snapshot term ≡ (err e, after)
      → (c.snapshot after ≡ c.snapshot n) × (c.leader_id after ≡ c.leader_id n)

-- The calls on a node, over its log.
abbrev pub node_consensus : {S : Type 0} → MetadataLog S → MetadataConsensus (MetadataNode S)
node_consensus log = record {
  local_node_id = λ node. node.local_node_id;
  leader_id = λ node. node.store.leader;
  is_leader = Node.is_leader;
  snapshot = λ node. node.store.snapshot;
  apply_snapshot = apply_snapshot log;
}

abbrev pub InMemoryMetadataNode : Type 0
InMemoryMetadataNode = MetadataNode (List MetadataLogEntry)

-- `InMemoryMetadataNode::new`, whose `expect` is the error.
unfoldable new_in_memory : Str → CoordinationSnapshot → Result NodeError InMemoryMetadataNode
unfolding new
new_in_memory node_id initial_snapshot = new memory_log node_id initial_snapshot []

abbrev pub in_memory_consensus : MetadataConsensus InMemoryMetadataNode
in_memory_consensus = node_consensus memory_log

-- The calls on a persisted node are those of the node inside it, over its file.
abbrev persisted_consensus : LineCodec → MetadataConsensus PersistedMetadataNode
persisted_consensus codec = record {
  local_node_id = λ node. node.inner.local_node_id;
  leader_id = λ node. node.inner.store.leader;
  is_leader = λ node. Node.is_leader node.inner;
  snapshot = λ node. node.inner.store.snapshot;
  apply_snapshot = λ node proposer snapshot term.
      let (result, inner) =
        apply_snapshot (file_log codec node.replay_policy) node.inner proposer snapshot term in
      (result, record node { inner = inner });
}

-- A node in memory can always be made, so the `expect` never panics: it has no leader and holds the
-- snapshot that it was given.
new_in_memory-ok :
    (node_id : Str) (initial_snapshot : CoordinationSnapshot)
    → (node : InMemoryMetadataNode) × (new_in_memory node_id initial_snapshot ≡ ok node)
      × (in_memory_consensus.snapshot node ≡ initial_snapshot)
      × (in_memory_consensus.leader_id node ≡ none)
unfolding new_in_memory Memory.latest_entry
new_in_memory-ok node_id initial_snapshot = (
  record {
    local_node_id = node_id;
    store = record { current_term = 1; leader = none; snapshot = initial_snapshot };
    log = [];
  },
  refl,
  refl,
  refl,
)

-- A node is such an engine, over any log.
pub node_consensus-IsConsensus :
    {S : Type 0} (log : MetadataLog S) → IsConsensus (node_consensus log)
unfolding Node.is_leader
node_consensus-IsConsensus log = record {
  is_leader-leader_id =
      λ node. option_str_eq.equals_iff node.store.leader (some node.local_node_id);
  applied = λ node after proposer snapshot term h.
      let kept = apply_snapshot-ok log node after proposer snapshot term h in
      ((kept.0.0, kept.0.1.1), (kept.1.0.0, kept.1.1.0));
  refused = λ node after proposer snapshot term e h.
      elim (apply_snapshot-err log node after proposer snapshot term e h) [
        | inl (same, why) ↦ (ap (λ n. n.store.snapshot) same, ap (λ n. n.store.leader) same)
        | inr (failed, kept) ↦ (kept.0.0, kept.0.1)
      ];
}

-- A persisted node is such an engine, whatever its replay policy.
persisted_consensus-IsConsensus : (codec : LineCodec) → IsConsensus (persisted_consensus codec)
unfolding Node.is_leader
persisted_consensus-IsConsensus codec = record {
  is_leader-leader_id =
      λ node. option_str_eq.equals_iff node.inner.store.leader (some node.inner.local_node_id);
  applied = λ node after proposer snapshot term h.
      (node_consensus-IsConsensus (file_log codec node.replay_policy)).applied node.inner
        after.inner proposer snapshot term (ground arith);
  refused = λ node after proposer snapshot term e h.
      (node_consensus-IsConsensus (file_log codec node.replay_policy)).refused node.inner
        after.inner proposer snapshot term e (ground arith);
}
