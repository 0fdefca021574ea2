-- ===== src/Core/Durability.antt =====
-- Durability policies of `crates/ganglion-core/src/lib.rs`: how many replicas a write needs.
pub mod Quorum
use ganglion.Prelude.{ℕ, ◌+◌, ◌/◌, Result, ok, err, ◌>>◌, ltb, if◌then◌else◌}
use ganglion.Core.Model.{
  ReplicationDurabilityPolicy, local_durable, replica_accepted, replica_durable, majority_durable,
  PartitionAssignment, replica_set_size,
}

pub data ReplicationAcknowledgement : Type 0 where
  accepted durable : ReplicationAcknowledgement

pub record ReplicationDurabilityRequirement : Type 0 where
  pub nodes : ℕ
  pub acknowledgement : ReplicationAcknowledgement

pub data ReplicationDurabilityError : Type 0 where
  zero_nodes : ReplicationDurabilityError
  not_enough_assigned_nodes : ℕ → ℕ → ReplicationDurabilityError

validate : ReplicationDurabilityRequirement → ℕ → Result ReplicationDurabilityError (Unit {0})
validate r assigned_nodes =
    if ltb 0 r.nodes
    then if ltb assigned_nodes r.nodes
      then err (not_enough_assigned_nodes r.nodes assigned_nodes)
      else ok tt
    else err zero_nodes

-- The `match self` of `resolve`.
pub requirement : ReplicationDurabilityPolicy → ℕ → ReplicationDurabilityRequirement
requirement local_durable assigned_nodes = record { nodes = 1; acknowledgement = durable }
requirement (replica_accepted nodes) assigned_nodes = record {
  nodes = nodes;
  acknowledgement = accepted;
}
requirement (replica_durable nodes) assigned_nodes = record {
  nodes = nodes;
  acknowledgement = durable;
}
requirement majority_durable assigned_nodes = record {
  nodes = assigned_nodes / 2 + 1;
  acknowledgement = durable;
}

unfoldable pub resolve :
    ReplicationDurabilityPolicy
    → ℕ
    → Result ReplicationDurabilityError ReplicationDurabilityRequirement
unfolding validate requirement
resolve policy assigned_nodes =
    let r = requirement policy assigned_nodes in do validate r assigned_nodes; ok r

pub durability_requirement :
    PartitionAssignment → Result ReplicationDurabilityError ReplicationDurabilityRequirement
unfolding resolve replica_set_size
durability_requirement a = resolve a.durability (replica_set_size a)
