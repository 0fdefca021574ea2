-- ===== src/Coordination.antt =====
-- `crates/ganglion-coordination/src/lib.rs`: the providers and their convenience functions. The
-- locks are taken for the whole of each call.
pub mod Watch
pub mod Freshness
pub mod Resources
mod Tests
use ganglion.Prelude.{
  ℕ, Option, some, none, Bool, true, false, List, [], ◌∷◌, ◌==◌, if◌then◌else◌, any,
}
use ganglion.BTreeMap.{BTreeMap, BTreeSet, extend}
use ganglion.Core.Model.{
  Str, str_eq, ResourceIdentity, resource_ord, resource_eq, PartitionAssignment,
  CoordinationSnapshot, assignment_for, is_owned_by, is_followed_by,
}
use ganglion.Coordination.Watch.{WatchChannel}

pub record InMemoryCoordination (W : Type 0) : Type 0 where
  pub snapshot : CoordinationSnapshot
  pub sender : W

module _ {W : Type 0} (watches : WatchChannel W CoordinationSnapshot) where
  -- The receiver that the channel is made with is dropped.
  unfoldable pub new : CoordinationSnapshot → InMemoryCoordination W
  new initial = record { snapshot = initial; sender = watches.channel_without_receiver initial }

  unfoldable pub update_snapshot :
      InMemoryCoordination W → CoordinationSnapshot → InMemoryCoordination W
  update_snapshot c next = record { snapshot = next; sender = watches.send next c.sender }

  unfoldable pub set_generation : InMemoryCoordination W → ℕ → InMemoryCoordination W
  set_generation c generation =
      let next : CoordinationSnapshot = record c.snapshot { generation = generation } in
      record { snapshot = next; sender = watches.send next c.sender }

  -- `watch`: what the new receiver sees, and the channel with it.
  unfoldable pub watch : InMemoryCoordination W → CoordinationSnapshot × InMemoryCoordination W
  watch c = (watches.value c.sender, record c { sender = watches.subscribe c.sender })

-- The calls that change a provider.
pub data Update : Type 0 where
  update_snapshot_call : CoordinationSnapshot → Update
  set_generation_call : ℕ → Update

module _ {W : Type 0} (watches : WatchChannel W CoordinationSnapshot) where
  unfoldable pub run : List Update → InMemoryCoordination W → InMemoryCoordination W
  unfolding update_snapshot set_generation
  run [] c = c
  run (update_snapshot_call next ∷ calls) c = run calls (update_snapshot watches c next)
  run (set_generation_call generation ∷ calls) c = run calls (set_generation watches c generation)

-- `owns_resource` and `follows_resource` of `InMemoryCoordination`, on its snapshot.
unfoldable pub owns_resource : CoordinationSnapshot → Str → ResourceIdentity → Bool
unfolding assignment_for
owns_resource s node_id resource = elim (assignment_for s resource) [
  | none ↦ false
  | some assignment ↦ assignment.owner == node_id
]

unfoldable pub follows_resource : CoordinationSnapshot → Str → ResourceIdentity → Bool
unfolding assignment_for
follows_resource s node_id resource = elim (assignment_for s resource) [
  | none ↦ false
  | some assignment ↦ any (λ follower. follower == node_id) assignment.followers
]

-- The same of `StaticCoordination`, which holds a snapshot alone.
unfoldable pub static_owns_resource : CoordinationSnapshot → Str → ResourceIdentity → Bool
unfolding assignment_for is_owned_by
static_owns_resource s node_id resource = elim (assignment_for s resource) [
  | none ↦ false
  | some assignment ↦ is_owned_by assignment node_id
]

unfoldable pub static_follows_resource : CoordinationSnapshot → Str → ResourceIdentity → Bool
unfolding assignment_for is_followed_by
static_follows_resource s node_id resource = elim (assignment_for s resource) [
  | none ↦ false
  | some assignment ↦ is_followed_by assignment node_id
]

-- The `filter_map` of the convenience functions.
abbrev pub keys_where :
    (PartitionAssignment → Bool)
    → BTreeMap ResourceIdentity PartitionAssignment
    → List ResourceIdentity
keys_where p [] = []
keys_where p ((resource, assignment) ∷ rest) =
    let others = keys_where p rest in if p assignment then resource ∷ others else others

unfoldable pub owned_resources : CoordinationSnapshot → Str → List ResourceIdentity
owned_resources s node_id = keys_where (λ a. a.owner == node_id) s.assignments

unfoldable pub followed_resources : CoordinationSnapshot → Str → List ResourceIdentity
followed_resources s node_id =
    keys_where (λ a. any (λ follower. follower == node_id) a.followers) s.assignments

abbrev with_unit : List ResourceIdentity → List (ResourceIdentity × Unit {0})
with_unit [] = []
with_unit (r ∷ rs) = (r, tt) ∷ with_unit rs

unfoldable owned_by_snapshot : CoordinationSnapshot → Str → BTreeSet ResourceIdentity
unfolding extend
owned_by_snapshot s node_id =
    extend [] (with_unit (keys_where (λ a. a.owner == node_id) s.assignments))
