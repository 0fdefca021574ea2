-- ===== src/Core/Placement/Plans.antt =====
-- What each assignment of a plan promises, and which resources a plan assigns.
use ganglion.Prelude.{
  ℕ, ◌+◌, ◌-◌, ◌<◌, min, Option, some, none, true, false, List, [], ◌∷◌, ◌≡◌, ◌⊎◌, inl, inr,
  Bool-cases, ◌==◌, ◌≢◌, refl, arith, u64_max, length, contains, Distinct,
}
use ganglion.BTreeMap.{BTreeMap, get, keys}
use ganglion.BTreeMap.Sorted.{Each, Each-insert}
use ganglion.Core.Model.{
  Str, str_eq, ResourceIdentity, resource_ord, resource_eq, PartitionAssignment,
}
use ganglion.Core.Placement.{
  PlacementInput, pick_owner, planned_epoch, planned_durability, planned, place_in_turn,
}
use ganglion.Core.Placement.Balanced.{balanced_owner, place_by_load, add_load}
use ganglion.Core.Placement.Followers.{IsFollowerSet}
use ganglion.Core.Placement.FollowerCount.{gather_followers-IsFollowerSet, length-gather_followers}
use ganglion.Core.Placement.Owners.{pick_owner-live, balanced_owner-live}

-- What a new assignment owes to the one before it: an owner stays unless it is gone, the epoch stays
-- with the owner and moves up, short of its maximum, with a new one, and the policy stays.
pub record Succeeds (node_ids : List Str) (before after : PartitionAssignment) : Type 0 where
  pub sticky : (after.owner ≡ before.owner) ⊎ (contains node_ids before.owner ≡ false)
  pub fenced :
      ((after.owner ≡ before.owner) × (after.epoch ≡ before.epoch))
      ⊎ ((after.owner ≢ before.owner) × (after.epoch ≡ min (before.epoch + 1) u64_max))
  pub durability : after.durability ≡ before.durability

abbrev SucceedsAny : List Str → Option PartitionAssignment → PartitionAssignment → Type 0
SucceedsAny node_ids none after = after.epoch ≡ 1
SucceedsAny node_ids (some before) after = Succeeds node_ids before after

-- What both policies promise of the assignment of a resource.
pub record IsPlaced (input : PlacementInput) (resource : ResourceIdentity) (a : PartitionAssignment)
    : Type 0 where
  pub for_resource : a.resource ≡ resource
  pub live_owner : contains (keys input.nodes) a.owner ≡ true
  pub follower_set : IsFollowerSet a.owner (keys input.nodes) a.followers
  pub follower_count :
      length a.followers ≡ min input.target_followers (length (keys input.nodes) - 1)
  pub successor : SucceedsAny (keys input.nodes) (get resource input.existing) a

planned-Succeeds :
    (node_ids : List Str) (existing : Option PartitionAssignment) (a : PartitionAssignment)
    → ((before : PartitionAssignment)
        → existing ≡ some before
        → contains node_ids before.owner ≡ true
        → a.owner ≡ before.owner)
    → a.epoch ≡ planned_epoch existing a.owner
    → a.durability ≡ planned_durability existing
    → SucceedsAny node_ids existing a
unfolding planned_epoch planned_durability
planned-Succeeds node_ids none a s e d = e
planned-Succeeds node_ids (some before) a s e d = record {
  sticky = elim (Bool-cases (contains node_ids before.owner)) [
    | inl live ↦ inl (s before refl live)
    | inr gone ↦ inr gone
  ];
  fenced = elim (Bool-cases (before.owner == a.owner)) [
    | inl kept ↦ inl (ground (arith, str_eq.equals_iff before.owner a.owner))
    | inr moved ↦ inr (ground (arith, str_eq.equals_iff before.owner a.owner))
  ];
  durability = d;
}

planned-IsPlaced :
    (input : PlacementInput) (resource : ResourceIdentity) (owner : Str)
    → Distinct (keys input.nodes)
    → contains (keys input.nodes) owner ≡ true
    → ((before : PartitionAssignment)
        → get resource input.existing ≡ some before
        → contains (keys input.nodes) before.owner ≡ true
        → owner ≡ before.owner)
    → IsPlaced input resource (planned input resource owner)
unfolding planned
planned-IsPlaced input resource owner distinct live sticky = record {
  for_resource = refl;
  live_owner = live;
  follower_set =
      gather_followers-IsFollowerSet owner input.target_followers (keys input.nodes)
        (get resource input.existing);
  follower_count =
      length-gather_followers owner input.target_followers (keys input.nodes) distinct live
        (get resource input.existing);
  successor = planned-Succeeds (keys input.nodes) (get resource input.existing) _ sticky refl refl;
}

pick_owner-sticky :
    (idx : ℕ) (node_ids : List Str) (existing : Option PartitionAssignment)
    (before : PartitionAssignment)
    → existing ≡ some before
    → contains node_ids before.owner ≡ true
    → pick_owner idx node_ids existing ≡ before.owner
unfolding pick_owner
pick_owner-sticky idx node_ids none before h l = cc
pick_owner-sticky idx node_ids (some e) before h l = ground arith

balanced_owner-sticky :
    (load : BTreeMap Str ℕ) (node_ids : List Str) (existing : Option PartitionAssignment)
    (before : PartitionAssignment)
    → existing ≡ some before
    → contains node_ids before.owner ≡ true
    → balanced_owner node_ids existing load ≡ before.owner
unfolding balanced_owner
balanced_owner-sticky load node_ids none before h l = cc
balanced_owner-sticky load node_ids (some e) before h l = ground arith

module _ (input : PlacementInput) (distinct : Distinct (keys input.nodes))
    (some_nodes : 0 < length (keys input.nodes)) where
  pub place_in_turn-IsPlaced :
      (idx : ℕ) (rs : List ResourceIdentity) (m : BTreeMap ResourceIdentity PartitionAssignment)
      → Each (IsPlaced input) m
      → Each (IsPlaced input) (place_in_turn input idx rs m)
  unfolding place_in_turn
  place_in_turn-IsPlaced idx [] m h = h
  place_in_turn-IsPlaced idx (r ∷ rs) m h = place_in_turn-IsPlaced (idx + 1) rs _ (
      Each-insert (IsPlaced input) r _ m
        (planned-IsPlaced input r _ distinct
          (pick_owner-live idx (keys input.nodes) (get r input.existing) some_nodes)
          (pick_owner-sticky idx (keys input.nodes) (get r input.existing)))
        h)

  pub place_by_load-IsPlaced :
      (load : BTreeMap Str ℕ) (rs : List ResourceIdentity)
      (m : BTreeMap ResourceIdentity PartitionAssignment)
      → Each (IsPlaced input) m
      → Each (IsPlaced input) (place_by_load input load rs m)
  unfolding place_by_load
  place_by_load-IsPlaced load [] m h = h
  place_by_load-IsPlaced load (r ∷ rs) m h =
      place_by_load-IsPlaced
        (add_load (balanced_owner (keys input.nodes) (get r input.existing) load) load) rs _
        (Each-insert (IsPlaced input) r _ m
          (planned-IsPlaced input r _ distinct
            (balanced_owner-live (keys input.nodes) (get r input.existing) load some_nodes)
            (balanced_owner-sticky load (keys input.nodes) (get r input.existing)))
          h)
