-- ===== src/Openraft/StateMachine.antt =====
-- `GanglionStateMachine` of `crates/ganglion-openraft/src/openraft_runtime/storage.rs`: the
-- commands of the replicated `apply`. A `u64` generation wraps as in a release build.
pub mod Generation
pub mod Topology
mod Tests
use ganglion.Prelude.{
  ℕ, Option, some, none, Bool, true, false, [], ◌∷◌, ◌==◌, ◌||◌, ◌&&◌, not, ltb, eqb, if◌then◌else◌,
  wrapping_add, nat_ord, list_ord, option_ord, pair_ord,
}
use ganglion.BTreeMap.{BTreeMap, get, insert, remove, contains_key, is_some}
use ganglion.Core.Model.{
  Str, str_eq, option_str_eq, node_eq, NodeInfo, ResourceIdentity, resource_ord,
  CoordinationSnapshot,
}
use ganglion.Openraft.Command.{
  MetadataRaftCommand, apply_snapshot, apply_snapshot_guarded, update_partition_guarded,
  register_node, deregister_node, register_resource, register_resource_with_initial_attribute,
  deregister_resource, deregister_resource_with_attribute, set_attribute, remove_attribute,
  compare_and_set_attribute, compare_and_set_attribute_guarded,
  deregister_resource_replacing_attribute, MetadataRejection, stale_generation, generation_mismatch,
  attribute_mismatch,
}

-- What the `apply_command` closure does: the new `inner.state`, the rejection that it returns, and
-- whether it set `state_changed`.
pub record Outcome : Type 0 where
  pub state : CoordinationSnapshot
  pub rejection : Option MetadataRejection
  pub changed : Bool

abbrev reject : CoordinationSnapshot → MetadataRejection → Outcome
reject s r = record { state = s; rejection = some r; changed = false }

-- `return None` with nothing published.
abbrev silent : CoordinationSnapshot → Outcome
silent s = record { state = s; rejection = none; changed = false }

-- `inner.state.generation += 1; state_changed = true; return None`.
abbrev bumped : CoordinationSnapshot → Outcome
bumped s = record {
  state = record s { generation = wrapping_add s.generation 1 };
  rejection = none;
  changed = true;
}

abbrev bumped_if : Bool → CoordinationSnapshot → Outcome
bumped_if b s = if b then bumped s else silent s

-- The tail of the closure, which replaces the snapshot unless it is stale.
unfoldable pub replace : CoordinationSnapshot → CoordinationSnapshot → Outcome
replace s snapshot =
    if ltb snapshot.generation s.generation
    then reject s stale_generation
    else record { state = snapshot; rejection = none; changed = true }

pub update_attributes : BTreeMap Str (Option Str) → BTreeMap Str Str → BTreeMap Str Str
update_attributes [] attributes = attributes
update_attributes ((key, some value) ∷ rest) attributes =
    update_attributes rest (insert key value attributes)
update_attributes ((key, none) ∷ rest) attributes = update_attributes rest (remove key attributes)

pub register : CoordinationSnapshot → NodeInfo → Outcome
register s node =
    let nodes = insert node.node_id node s.nodes in
    elim (get node.node_id s.nodes) [
      | none ↦ bumped (record s { nodes = nodes })
      | some existing ↦
          if existing == node
          then silent s
          else if existing.endpoint == node.endpoint
              && existing.admin_endpoint == node.admin_endpoint
          then silent (record s { nodes = nodes })
          else bumped (record s { nodes = nodes })
    ]

-- Both deregistrations that are conditional on an attribute; `replacement` is the
-- `retirement_attribute`.
pub retire : CoordinationSnapshot → ResourceIdentity → Str → Option Str → Option Str → Outcome
retire s resource key expected replacement =
    let actual = get key s.attributes in
    if actual == expected
    then bumped_if
        (contains_key resource s.resources
          || (elim replacement [ none ↦ is_some actual | some value ↦ not (actual == some value) ]))
        (record s {
          resources = remove resource s.resources;
          attributes = elim replacement [
            | none ↦ remove key s.attributes
            | some value ↦ insert key value s.attributes
          ];
        })
    else reject s (attribute_mismatch key actual)

unfoldable pub write_attribute : CoordinationSnapshot → Str → Str → Outcome
write_attribute s key value =
    if get key s.attributes == some value
    then silent s
    else bumped (record s { attributes = insert key value s.attributes })

unfoldable pub compare_and_set : CoordinationSnapshot → Str → Option Str → Str → Outcome
compare_and_set s key expected value =
    let actual = get key s.attributes in
    if actual == expected
    then write_attribute s key value
    else reject s (attribute_mismatch key actual)

-- The test that opens each guarded command.
abbrev pub guarded : CoordinationSnapshot → ℕ → Outcome → Outcome
guarded s expected rest =
    if eqb s.generation expected then rest else reject s (generation_mismatch expected s.generation)

unfoldable pub apply_command : CoordinationSnapshot → MetadataRaftCommand → Outcome
unfolding replace update_attributes register retire write_attribute compare_and_set
apply_command s (apply_snapshot snapshot) = replace s snapshot
apply_command s (apply_snapshot_guarded expected snapshot) = guarded s expected (replace s snapshot)
apply_command s (update_partition_guarded expected assignment attributes) = guarded s expected (
    bumped (record s {
      assignments = insert assignment.resource assignment s.assignments;
      attributes = update_attributes attributes s.attributes;
    }))
apply_command s (register_node node) = register s node
apply_command s (deregister_node node_id) =
    bumped_if (contains_key node_id s.nodes) (record s { nodes = remove node_id s.nodes })
apply_command s (register_resource resource) =
    bumped_if (not (contains_key resource s.resources))
      (record s { resources = insert resource tt s.resources })
apply_command s (register_resource_with_initial_attribute resource key value) =
    if contains_key resource s.resources
    then silent s
    else bumped (record s {
      attributes =
          if contains_key resource s.assignments
          then s.attributes
          else insert key value s.attributes;
      resources = insert resource tt s.resources;
    })
apply_command s (deregister_resource resource) =
    bumped_if (contains_key resource s.resources)
      (record s { resources = remove resource s.resources })
apply_command s (deregister_resource_with_attribute resource key expected) =
    retire s resource key expected none
apply_command s (deregister_resource_replacing_attribute resource key expected value) =
    retire s resource key expected (some value)
apply_command s (set_attribute key value) = write_attribute s key value
apply_command s (remove_attribute key) =
    bumped_if (contains_key key s.attributes) (record s { attributes = remove key s.attributes })
apply_command s (compare_and_set_attribute_guarded expected_generation key expected value) =
    guarded s expected_generation (compare_and_set s key expected value)
apply_command s (compare_and_set_attribute key expected value) =
    compare_and_set s key expected value
