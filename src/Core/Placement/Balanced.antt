-- ===== src/Core/Placement/Balanced.antt =====
-- The load-aware placement policy of `crates/ganglion-core/src/lib.rs`. Its loads are counts of the
-- owned resources.
use ganglion.Prelude.{
  ℕ, Option, some, none, List, [], ◌∷◌, if◌then◌else◌, saturating_add, Result, ok, err, Ordering,
  cmp_pair, nat_ord, list_ord, option_ord, pair_ord, contains,
}
use ganglion.BTreeMap.{BTreeMap, get, insert, contains_key, keys, map_values}
use ganglion.Core.Model.{
  Str, str_eq, ResourceIdentity, resource_ord, resource_eq, NodeInfo, PartitionAssignment,
  CoordinationSnapshot,
}
use ganglion.Core.Placement.{
  PlacementInput, PlacementError, no_nodes_for_resources, sort, dedup, planned, planned_snapshot,
}

-- `live_owner_load`: a zero for each node, then one for each existing assignment of a live owner.
count_owners :
    BTreeMap Str NodeInfo
    → BTreeMap ResourceIdentity PartitionAssignment
    → BTreeMap Str ℕ
    → BTreeMap Str ℕ
count_owners nodes [] load = load
count_owners nodes ((r, a) ∷ rest) load = count_owners nodes rest (
    if contains_key a.owner nodes
    then insert a.owner (saturating_add (elim (get a.owner load) [ none ↦ 0 | some n ↦ n ]) 1) load
    else load)

pub live_owner_load :
    BTreeMap Str NodeInfo → BTreeMap ResourceIdentity PartitionAssignment → BTreeMap Str ℕ
unfolding count_owners
live_owner_load nodes existing = count_owners nodes existing (map_values (λ _. 0) nodes)

-- The key by which `min_by_key` compares.
pub load_key : BTreeMap Str ℕ → Str → ℕ × Str
load_key load node = (elim (get node load) [ none ↦ 0 | some n ↦ n ], node)

unfoldable pub least_loaded : BTreeMap Str ℕ → Str → List Str → Str
unfolding load_key
least_loaded load best [] = best
least_loaded load best (node ∷ rest) =
    least_loaded load
      (elim (cmp_pair (load_key load node) (load_key load best)) [ Ordering.lt ↦ node | _ ↦ best ])
      rest

-- `pick_least_loaded_owner`
unfoldable pub pick_least_loaded_owner : List Str → BTreeMap Str ℕ → Str
unfolding least_loaded
pick_least_loaded_owner [] load = []
pick_least_loaded_owner (node ∷ rest) load = least_loaded load node rest

unfoldable pub balanced_owner : List Str → Option PartitionAssignment → BTreeMap Str ℕ → Str
unfolding pick_least_loaded_owner
balanced_owner node_ids none load = pick_least_loaded_owner node_ids load
balanced_owner node_ids (some existing) load =
    if contains node_ids existing.owner
    then existing.owner
    else pick_least_loaded_owner node_ids load

pub add_load : Str → BTreeMap Str ℕ → BTreeMap Str ℕ
add_load owner load = elim (get owner load) [
  | none ↦ load
  | some n ↦ insert owner (saturating_add n 1) load
]

-- The loop of the load-aware policy.
unfoldable pub place_by_load :
    PlacementInput
    → BTreeMap Str ℕ
    → List ResourceIdentity
    → BTreeMap ResourceIdentity PartitionAssignment
    → BTreeMap ResourceIdentity PartitionAssignment
unfolding planned balanced_owner add_load
place_by_load input load [] assignments = assignments
place_by_load input load (resource ∷ rest) assignments =
    let owner = balanced_owner (keys input.nodes) (get resource input.existing) load in
    place_by_load input (add_load owner load) rest
      (insert resource (planned input resource owner) assignments)

-- `LeastLoadedPartitionPlacement::plan`
unfoldable pub plan_least_loaded : PlacementInput → Result PlacementError CoordinationSnapshot
unfolding sort dedup place_by_load live_owner_load planned_snapshot
plan_least_loaded input = elim (dedup (sort input.resources)) [
  | [] ↦ ok (planned_snapshot input [])
  | r ∷ rs ↦ elim input.nodes [
    | [] ↦ err no_nodes_for_resources
    | _ ∷ _ ↦ ok (
        planned_snapshot input
          (place_by_load input (live_owner_load input.nodes input.existing) (r ∷ rs) []))
  ]
]
