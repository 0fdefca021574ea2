-- ===== src/Core/Tests.antt =====
-- Sample data for `crates/ganglion-core/src/lib.rs`, and the results at it.
use ganglion.Prelude.{
  ℕ, zero, suc, ◌+◌, ◌≤◌, ◌<◌, Option, some, none, true, false, List, [], ◌∷◌, map, ◌≡◌, ◌≢◌, ◌⊎◌,
  inl, inr, ◌↔◌, refl, arith, ok, err, nat_ord, list_ord, length, contains, u64_max, Distinct,
}
use ganglion.BTreeMap.{BTreeMap, get, keys}
use ganglion.Core.Model.{
  Str, str_eq, ResourceIdentity, resource_ord, resource_eq, NodeInfo, replica_accepted,
  majority_durable, PartitionAssignment, CoordinationSnapshot, default_snapshot,
}
use ganglion.Core.Durability.{
  resolve, durable, not_enough_assigned_nodes, durability_requirement,
  ReplicationDurabilityRequirement,
}
use ganglion.Core.Durability.Quorum.{durability_requirement-majority}
use ganglion.Core.Epoch.{stamp_assignment_epochs}
use ganglion.Core.Epoch.Fencing.{stamp_assignment_epochs_fences}
use ganglion.Core.Placement.{PlacementInput, plan_deterministic}
use ganglion.Core.Placement.Balanced.{plan_least_loaded}
use ganglion.Core.Placement.Policies.{IsPlan, plan_deterministic-IsPlan, plan_least_loaded-IsPlan}
use ganglion.Core.Roles.{plan_local_assignment_transitions}
use ganglion.Core.Roles.Transitions.{
  resource_of, is_involved, plan_local_assignment_transitions-covers,
}

abbrev node_a : Str
node_a = 97 ∷ []

abbrev node_b : Str
node_b = 98 ∷ []

abbrev node_c : Str
node_c = 99 ∷ []

abbrev info : Str → NodeInfo
info id = record { node_id = id; endpoint = id; admin_endpoint = none; labels = [] }

abbrev queue : ℕ → ResourceIdentity
queue partition = record {
  namespace = 110 ∷ [];
  name = 113 ∷ [];
  partition = partition;
  group = none;
}

abbrev held : ResourceIdentity → Str → List Str → ℕ → PartitionAssignment
held resource owner followers epoch = record {
  resource = resource;
  owner = owner;
  followers = followers;
  epoch = epoch;
  durability = majority_durable;
}

abbrev three_nodes : BTreeMap Str NodeInfo
three_nodes = (node_a, info node_a) ∷ (node_b, info node_b) ∷ (node_c, info node_c) ∷ []

abbrev old_assignments : BTreeMap ResourceIdentity PartitionAssignment
old_assignments =
    (queue 0, held (queue 0) node_b (node_a ∷ []) 4)
    ∷ (queue 1, held (queue 1) (100 ∷ []) (node_c ∷ []) 7)
    ∷ []

abbrev request : PlacementInput
request = record {
  nodes = three_nodes;
  resources = queue 2 ∷ queue 0 ∷ queue 1 ∷ queue 0 ∷ [];
  existing = old_assignments;
  target_followers = 1;
  generation = 9;
}

abbrev no_nodes : PlacementInput
no_nodes = record request { nodes = [] }

abbrev committed : CoordinationSnapshot
committed = record default_snapshot { nodes = three_nodes; assignments = old_assignments }

abbrev desired : CoordinationSnapshot
desired = record default_snapshot {
  nodes = three_nodes;
  assignments =
      (queue 0, held (queue 0) node_a (node_b ∷ []) 0) ∷ (queue 2, held (queue 2) node_c [] 0) ∷ [];
}

request-Distinct : Distinct (keys request.nodes)
unfolding ganglion.Prelude.same
request-Distinct = (refl, (refl, (refl, tt)))

plan_deterministic-IsPlan_example :
    (plan : CoordinationSnapshot) × ((plan_deterministic request ≡ ok plan) × IsPlan request plan)
plan_deterministic-IsPlan_example = plan_deterministic-IsPlan request request-Distinct (omega arith)

plan_least_loaded-IsPlan_example :
    (plan : CoordinationSnapshot) × ((plan_least_loaded request ≡ ok plan) × IsPlan request plan)
plan_least_loaded-IsPlan_example = plan_least_loaded-IsPlan request request-Distinct (omega arith)

abbrev some_load : BTreeMap Str ℕ
some_load = (node_a, 2) ∷ (node_b, 1) ∷ (node_c, 1) ∷ []

old_get : get (queue 0) committed.assignments ≡ some (held (queue 0) node_b (node_a ∷ []) 4)
unfolding get
old_get = refl

new_get :
    get (queue 0) (stamp_assignment_epochs committed desired).0.assignments
    ≡ some (held (queue 0) node_a (node_b ∷ []) 5)
unfolding get stamp_assignment_epochs ganglion.Prelude.same
new_get = refl

stamp_assignment_epochs_fences_example : (4 ≤ 5) × ((node_b ≢ node_a) ↔ (4 < 5))
stamp_assignment_epochs_fences_example =
    stamp_assignment_epochs_fences committed desired (queue 0)
      (held (queue 0) node_b (node_a ∷ []) 4) (held (queue 0) node_a (node_b ∷ []) 5) old_get
      new_get (omega arith)

abbrev two_durable : ReplicationDurabilityRequirement
two_durable = record { nodes = 2; acknowledgement = durable }

too_few : resolve (replica_accepted 4) 3 ≡ err (not_enough_assigned_nodes 4 3)
unfolding resolve
too_few = refl

durability_requirement-majority_example :
    (r : ReplicationDurabilityRequirement) × (durability_requirement
        (held (queue 0) node_b (node_a ∷ []) 4)
      ≡ ok r)
    × (r.acknowledgement ≡ durable)
    × (1 + 1 < r.nodes + r.nodes)
    × (r.nodes + r.nodes ≤ 1 + 1 + 2)
    × (r.nodes ≤ 1 + 1)
durability_requirement-majority_example =
    durability_requirement-majority (held (queue 0) node_b (node_a ∷ []) 4) refl

plan_local_assignment_transitions-covers_example :
    contains
      (map resource_of (plan_local_assignment_transitions node_b committed desired))
      (queue 1)
    ≡ is_involved node_b committed desired (queue 1)
plan_local_assignment_transitions-covers_example =
    plan_local_assignment_transitions-covers node_b committed desired (queue 1)
