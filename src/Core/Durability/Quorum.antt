-- ===== src/Core/Durability/Quorum.antt =====
-- What a resolved durability requirement guarantees.
use ganglion.Prelude.{ℕ, ◌+◌, ◌≤◌, ◌<◌, ok, err, ◌≡◌, ◌⊎◌, ◌↔◌, arith, length}
use ganglion.Core.Model.{ReplicationDurabilityPolicy, majority_durable, PartitionAssignment}
use ganglion.Core.Durability.{
  ReplicationDurabilityRequirement, ReplicationDurabilityError, zero_nodes,
  not_enough_assigned_nodes, requirement, resolve, durability_requirement, durable,
}

-- A policy resolves exactly when it asks for at least one replica and for no more than are
-- assigned, and then to what the policy asks for.
resolve_iff :
    (p : ReplicationDurabilityPolicy) (n : ℕ) (r : ReplicationDurabilityRequirement)
    → (resolve p n ≡ ok r) ↔ ((r ≡ requirement p n) × (0 < r.nodes) × (r.nodes ≤ n))
unfolding resolve
resolve_iff p n r = ((λ h. ground arith), λ h. ground arith)

-- When a policy does not resolve, it asked for no replica and the error says so, or it asked for
-- more than are assigned and the error gives both numbers.
resolve_errors :
    (p : ReplicationDurabilityPolicy) (n : ℕ) (e : ReplicationDurabilityError)
    → resolve p n ≡ err e
    → ((e ≡ zero_nodes) × ((requirement p n).nodes ≡ 0))
      ⊎ ((e ≡ not_enough_assigned_nodes (requirement p n).nodes n) × (n < (requirement p n).nodes))
unfolding resolve
resolve_errors p n e h = ground arith

-- On every assignment with the majority policy, the requirement is a durable quorum of the
-- replica set: two of them together exceed the replica set by one or two, and one is not larger
-- than it.
pub durability_requirement-majority :
    (a : PartitionAssignment)
    → a.durability ≡ majority_durable
    → (r : ReplicationDurabilityRequirement) × (durability_requirement a ≡ ok r)
      × (r.acknowledgement ≡ durable)
      × (1 + length a.followers < r.nodes + r.nodes)
      × (r.nodes + r.nodes ≤ 1 + length a.followers + 2)
      × (r.nodes ≤ 1 + length a.followers)
unfolding durability_requirement requirement
durability_requirement-majority a h = (
  requirement a.durability (1 + length a.followers),
  ground arith,
  ground arith,
  ground arith,
  ground arith,
  ground arith,
)
