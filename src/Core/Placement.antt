-- ===== src/Core/Placement.antt =====
-- The placement policies of `crates/ganglion-core/src/lib.rs`. A node list is never indexed when
-- it is empty; where it is indexed the default is not reached (see the child modules).
pub mod Balanced
pub mod Followers
pub mod FollowerCount
pub mod Owners
pub mod Plans
pub mod Coverage
pub mod Policies
pub mod Strategy
use ganglion.Prelude.{
  ℕ, zero, suc, ◌+◌, ◌*◌, ◌%◌, Option, some, none, Bool, true, false, List, [], ◌∷◌, ◌++◌, ◌==◌,
  ◌&&◌, ◌||◌, not, ltb, leb, eqb, if◌then◌else◌, saturating_add, Result, ok, err, Ord, Ordering,
  cmp_pair, nat_ord, list_ord, option_ord, pair_ord, length, take, get_or, contains, position,
}
use ganglion.BTreeMap.{BTreeMap, get, insert, contains_key, keys, map_values}
use ganglion.Core.Model.{
  Str, str_eq, ResourceIdentity, resource_ord, resource_eq, NodeInfo, PartitionAssignment,
  ReplicationDurabilityPolicy, local_durable, CoordinationSnapshot,
}

pub record PlacementInput : Type 0 where
  pub nodes : BTreeMap Str NodeInfo
  pub resources : List ResourceIdentity
  pub existing : BTreeMap ResourceIdentity PartitionAssignment
  pub target_followers : ℕ
  pub generation : ℕ

pub data PlacementError : Type 0 where
  no_nodes_for_resources : PlacementError

-- `sort` on a vector.
pub insert_sorted : ResourceIdentity → List ResourceIdentity → List ResourceIdentity
insert_sorted r [] = r ∷ []
insert_sorted r (s ∷ rest) = elim (resource_ord.cmp r s) [
  | Ordering.gt ↦ s ∷ insert_sorted r rest
  | _ ↦ r ∷ s ∷ rest
]

pub sort : List ResourceIdentity → List ResourceIdentity
unfolding insert_sorted
sort [] = []
sort (r ∷ rs) = insert_sorted r (sort rs)

-- `dedup` drops an element that equals the one before it.
pub dedup_from : ResourceIdentity → List ResourceIdentity → List ResourceIdentity
dedup_from last [] = []
dedup_from last (r ∷ rs) = let rest = dedup_from r rs in if last == r then rest else r ∷ rest

pub dedup : List ResourceIdentity → List ResourceIdentity
unfolding dedup_from
dedup [] = []
dedup (r ∷ rs) = r ∷ dedup_from r rs

-- `pick_owner`
pub pick_owner : ℕ → List Str → Option PartitionAssignment → Str
pick_owner idx node_ids none = get_or node_ids (idx % length node_ids) []
pick_owner idx node_ids (some existing) =
    if contains node_ids existing.owner
    then existing.owner
    else get_or node_ids (idx % length node_ids) []

-- The first loop of `gather_followers`, over the existing followers. `ordered_unique` always has
-- the elements of `followers`, so one list stands for both.
pub keep_followers : Str → List Str → List Str → List Str → List Str
keep_followers owner node_ids [] followers = followers
keep_followers owner node_ids (node ∷ rest) followers = keep_followers owner node_ids rest (
    if node == owner
    then followers
    else if not (contains followers node) && contains node_ids node
    then followers ++ node ∷ []
    else followers)

-- The candidate of one round, added if it is new.
pub add_candidate : Str → Str → List Str → List Str
add_candidate owner candidate followers =
    if candidate == owner
    then followers
    else if contains followers candidate
    then followers
    else followers ++ candidate ∷ []

-- The `while` loop, which breaks once `cursor` passes twice the number of nodes. The fuel is
-- `2 * node_ids.len()`, and the cursor starts at 1, so the break comes before the fuel ends.
pub fill_followers : ℕ → Str → ℕ → List Str → ℕ → ℕ → List Str → List Str
unfolding add_candidate
fill_followers zero owner target node_ids owner_index cursor followers = followers
fill_followers (suc fuel) owner target node_ids owner_index cursor followers =
    let candidate = get_or node_ids ((owner_index + cursor) % length node_ids) [] in
    let added = add_candidate owner candidate followers in
    let rest = fill_followers fuel owner target node_ids owner_index (cursor + 1) added in
    if ltb (length followers) target
    then (if ltb (length node_ids * 2) (cursor + 1) then added else rest)
    else followers

existing_followers : Option PartitionAssignment → List Str
existing_followers none = []
existing_followers (some existing) = existing.followers

position_or_zero : List Str → Str → ℕ
position_or_zero node_ids owner = elim (position node_ids owner) [ none ↦ 0 | some i ↦ i ]

-- `gather_followers`
pub gather_followers : Str → ℕ → List Str → Option PartitionAssignment → List Str
unfolding keep_followers fill_followers existing_followers position_or_zero
gather_followers owner target_followers node_ids existing =
    if leb (length node_ids) 1 || eqb target_followers 0
    then []
    else (let followers = keep_followers owner node_ids (existing_followers existing) [] in
        if leb target_followers (length followers)
        then take target_followers followers
        else take target_followers (
            fill_followers (length node_ids * 2) owner target_followers node_ids
              (position_or_zero node_ids owner) 1 followers))

-- The epoch of a planned assignment.
pub planned_epoch : Option PartitionAssignment → Str → ℕ
planned_epoch none owner = 1
planned_epoch (some existing) owner =
    if existing.owner == owner then existing.epoch else saturating_add existing.epoch 1

planned_durability : Option PartitionAssignment → ReplicationDurabilityPolicy
planned_durability none = local_durable
planned_durability (some existing) = existing.durability

-- The assignment that both policies insert for a resource, given its owner.
pub planned : PlacementInput → ResourceIdentity → Str → PartitionAssignment
unfolding gather_followers planned_epoch planned_durability
planned input resource owner =
    let existing = get resource input.existing in
    record {
      resource = resource;
      owner = owner;
      followers = gather_followers owner input.target_followers (keys input.nodes) existing;
      epoch = planned_epoch existing owner;
      durability = planned_durability existing;
    }

-- The snapshot that both policies return.
pub planned_snapshot :
    PlacementInput → BTreeMap ResourceIdentity PartitionAssignment → CoordinationSnapshot
planned_snapshot input assignments = record {
  nodes = input.nodes;
  assignments = assignments;
  resources = [];
  attributes = [];
  generation = input.generation;
}

-- The loop of the deterministic policy.
pub place_in_turn :
    PlacementInput
    → ℕ
    → List ResourceIdentity
    → BTreeMap ResourceIdentity PartitionAssignment
    → BTreeMap ResourceIdentity PartitionAssignment
unfolding planned pick_owner
place_in_turn input idx [] assignments = assignments
place_in_turn input idx (resource ∷ rest) assignments =
    let owner = pick_owner idx (keys input.nodes) (get resource input.existing) in
    place_in_turn input (idx + 1) rest (insert resource (planned input resource owner) assignments)

-- `DeterministicPartitionPlacement::plan`
pub plan_deterministic : PlacementInput → Result PlacementError CoordinationSnapshot
unfolding sort dedup place_in_turn planned_snapshot
plan_deterministic input = elim (dedup (sort input.resources)) [
  | [] ↦ ok (planned_snapshot input [])
  | r ∷ rs ↦ elim input.nodes [
    | [] ↦ err no_nodes_for_resources
    | _ ∷ _ ↦ ok (planned_snapshot input (place_in_turn input 0 (r ∷ rs) []))
  ]
]
