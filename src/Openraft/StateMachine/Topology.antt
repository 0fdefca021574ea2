-- ===== src/Openraft/StateMachine/Topology.antt =====
-- What watchers are told of: everything in a snapshot but the node labels.
use ganglion.Prelude.{
  ℕ, Option, some, none, false, [], ◌∷◌, ◌≡◌, ap, arith, nat_ord, list_ord, option_ord, pair_ord,
  Option-cases, inl, inr,
}
use ganglion.BTreeMap.{BTreeMap, BTreeSet, get, insert, remove, map_values}
use ganglion.BTreeMap.Sorted.{IsSorted, insert-IsSorted, remove-IsSorted}
use ganglion.BTreeMap.Values.{insert_same, remove_absent, map_values-insert_same}
use ganglion.Core.Model.{
  Str, str_eq, option_str_eq, node_eq, NodeInfo, ResourceIdentity, resource_ord,
  PartitionAssignment, CoordinationSnapshot,
}
use ganglion.Openraft.Command.{
  MetadataRaftCommand, apply_snapshot, apply_snapshot_guarded, register_node, deregister_node,
  register_resource, deregister_resource, remove_attribute, deregister_resource_with_attribute,
  deregister_resource_replacing_attribute,
}
use ganglion.Openraft.StateMachine.{apply_command, register, retire, update_attributes}

-- The maps and sets of a snapshot are in key order, as `BTreeMap` keeps them.
pub record IsOrdered (s : CoordinationSnapshot) : Type 0 where
  pub nodes : IsSorted s.nodes
  pub assignments : IsSorted s.assignments
  pub resources : IsSorted s.resources
  pub attributes : IsSorted s.attributes

-- A snapshot carried by a command is made of ordered maps too.
abbrev pub CarriesOrdered : MetadataRaftCommand → Type 0
CarriesOrdered (apply_snapshot snapshot) = IsOrdered snapshot
CarriesOrdered (apply_snapshot_guarded expected snapshot) = IsOrdered snapshot
CarriesOrdered _ = Unit

abbrev identity : NodeInfo → Str × Option Str
identity n = (n.endpoint, n.admin_endpoint)

pub record TopologyView : Type 0 where
  pub nodes : BTreeMap Str (Str × Option Str)
  pub assignments : BTreeMap ResourceIdentity PartitionAssignment
  pub resources : BTreeSet ResourceIdentity
  pub attributes : BTreeMap Str Str
  pub generation : ℕ

abbrev pub topology : CoordinationSnapshot → TopologyView
topology s = record {
  nodes = map_values identity s.nodes;
  assignments = s.assignments;
  resources = s.resources;
  attributes = s.attributes;
  generation = s.generation;
}

update_attributes-IsSorted :
    (changes : BTreeMap Str (Option Str)) (m : BTreeMap Str Str)
    → IsSorted m
    → IsSorted (update_attributes changes m)
unfolding update_attributes
update_attributes-IsSorted [] m s = s
update_attributes-IsSorted ((k, some v) ∷ rest) m s =
    update_attributes-IsSorted rest (insert k v m) (insert-IsSorted k v m s)
update_attributes-IsSorted ((k, none) ∷ rest) m s =
    update_attributes-IsSorted rest (remove k m) (remove-IsSorted k m s)

ruleset sorted_rules = (insert-IsSorted, remove-IsSorted, update_attributes-IsSorted)

-- Every command keeps the maps of the snapshot in key order, if those of a snapshot that it
-- carries are.
pub apply_command-IsOrdered :
    (s : CoordinationSnapshot) (c : MetadataRaftCommand)
    → IsOrdered s
    → CarriesOrdered c
    → IsOrdered (apply_command s c).state
unfolding apply_command update_attributes
apply_command-IsOrdered s (apply_snapshot snapshot) o h = grind (arith, sorted_rules)
apply_command-IsOrdered s _ o h = grind (arith, sorted_rules)

register-topology :
    (s : CoordinationSnapshot) (node : NodeInfo)
    → IsOrdered s
    → (register s node).changed ≡ false
    → topology (register s node).state ≡ topology s
unfolding register
register-topology s node o h = elim (Option-cases (get node.node_id s.nodes)) [
  | inl absent ↦ ground arith
  | inr (existing, found) ↦ ground (
    arith,
    str_eq.equals_iff existing.endpoint node.endpoint,
    option_str_eq.equals_iff existing.admin_endpoint node.admin_endpoint,
    map_values-insert_same identity node.node_id node s.nodes o.nodes found,
  )
]

retire_silent :
    (s : CoordinationSnapshot) (resource : ResourceIdentity) (key : Str)
    (expected replacement : Option Str)
    → IsOrdered s
    → (retire s resource key expected replacement).changed ≡ false
    → (retire s resource key expected replacement).state ≡ s
unfolding retire
retire_silent s resource key expected none o h =
    ground (arith, remove_absent resource s.resources, remove_absent key s.attributes)
retire_silent s resource key expected (some value) o h = ground (
  arith,
  remove_absent resource s.resources,
  option_str_eq.equals_iff (get key s.attributes) (some value),
  insert_same key value s.attributes o.attributes,
)

-- On a snapshot with its maps in key order, a command that publishes nothing leaves all but the
-- node labels as it was: the same nodes at the same endpoints, assignments, resources,
-- attributes and generation.
pub topology-apply_command :
    (s : CoordinationSnapshot) (c : MetadataRaftCommand)
    → IsOrdered s
    → (apply_command s c).changed ≡ false
    → topology (apply_command s c).state ≡ topology s
unfolding apply_command
topology-apply_command s (apply_snapshot snapshot) o h = ground arith
topology-apply_command s (register_node node) o h = register-topology s node o h
topology-apply_command s (deregister_node node_id) o h =
    ground (arith, remove_absent node_id s.nodes)
topology-apply_command s (register_resource resource) o h =
    ground (arith, insert_same resource tt s.resources o.resources)
topology-apply_command s (deregister_resource resource) o h =
    ground (arith, remove_absent resource s.resources)
topology-apply_command s (remove_attribute key) o h = ground (arith, remove_absent key s.attributes)
topology-apply_command s (deregister_resource_with_attribute resource key expected) o h =
    ap topology (retire_silent s resource key expected none o h)
topology-apply_command s (deregister_resource_replacing_attribute resource key expected value) o h =
    ap topology (retire_silent s resource key expected (some value) o h)
topology-apply_command s _ o h = ground arith
