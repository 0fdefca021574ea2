-- ===== src/Core/Roles.antt =====
-- Local roles and transitions of `crates/ganglion-core/src/lib.rs`: what a node does when the
-- committed snapshot changes.
pub mod Transitions
use ganglion.Prelude.{
  ℕ, Option, some, none, Bool, true, false, List, [], ◌∷◌, ◌==◌, if◌then◌else◌, contains,
}
use ganglion.BTreeMap.{BTreeMap, BTreeSet, extend, keys}
use ganglion.Core.Model.{
  Str, str_eq, ResourceIdentity, resource_ord, PartitionAssignment, CoordinationSnapshot,
  assignment_for,
}

pub data LocalRole : Type 0 where
  owner follower none_held : LocalRole

pub data LocalTransition : Type 0 where
  keep_owner : ResourceIdentity → LocalTransition
  keep_follower : ResourceIdentity → LocalTransition
  promote_follower_to_owner : ResourceIdentity → ℕ → LocalTransition
  demote_owner_to_follower : ResourceIdentity → ℕ → ℕ → LocalTransition
  stop_serving : ResourceIdentity → Bool → LocalTransition

role_in : Option PartitionAssignment → Str → LocalRole
role_in none node_id = none_held
role_in (some assignment) node_id =
    if assignment.owner == node_id
    then owner
    else if contains assignment.followers node_id
    then follower
    else none_held

-- `local_assignment_role`
pub local_assignment_role : CoordinationSnapshot → Str → ResourceIdentity → LocalRole
unfolding role_in assignment_for
local_assignment_role snapshot node_id resource = role_in (assignment_for snapshot resource) node_id

-- `map_or(default, |a| a.epoch)`
abbrev epoch_or : ℕ → Option PartitionAssignment → ℕ
epoch_or default none = default
epoch_or default (some a) = a.epoch

-- The `match` on the two roles; nothing for `continue`.
pub transition_for :
    CoordinationSnapshot
    → CoordinationSnapshot
    → ResourceIdentity
    → LocalRole
    → LocalRole
    → Option LocalTransition
unfolding assignment_for
transition_for previous next resource owner owner = some (keep_owner resource)
transition_for previous next resource follower follower = some (keep_follower resource)
transition_for previous next resource none_held owner =
    some (promote_follower_to_owner resource (epoch_or 1 (assignment_for next resource)))
transition_for previous next resource follower owner =
    some (promote_follower_to_owner resource (epoch_or 1 (assignment_for next resource)))
transition_for previous next resource owner follower =
    let previous_epoch = epoch_or 0 (assignment_for previous resource) in
    some (
      demote_owner_to_follower resource previous_epoch
        (epoch_or previous_epoch (assignment_for next resource)))
transition_for previous next resource owner none_held = some (stop_serving resource true)
transition_for previous next resource follower none_held = some (stop_serving resource false)
transition_for previous next resource none_held follower = some (keep_follower resource)
transition_for previous next resource none_held none_held = none

pub transitions_for :
    Str → CoordinationSnapshot → CoordinationSnapshot → List ResourceIdentity → List LocalTransition
unfolding transition_for local_assignment_role
transitions_for node_id previous next [] = []
transitions_for node_id previous next (resource ∷ rest) =
    let transitions = transitions_for node_id previous next rest in
    elim (transition_for previous next resource (local_assignment_role previous node_id resource)
      (local_assignment_role next node_id resource)) [
        | none ↦ transitions
        | some transition ↦ transition ∷ transitions
      ]

-- The keys of a map as pairs to add to a set.
abbrev pub with_unit : List ResourceIdentity → List (ResourceIdentity × Unit {0})
with_unit [] = []
with_unit (r ∷ rs) = (r, tt) ∷ with_unit rs

-- `plan_local_assignment_transitions`
pub plan_local_assignment_transitions :
    Str → CoordinationSnapshot → CoordinationSnapshot → List LocalTransition
unfolding transitions_for extend
plan_local_assignment_transitions node_id previous next =
    let resources : BTreeSet ResourceIdentity =
      extend (extend [] (with_unit (keys previous.assignments)))
        (with_unit (keys next.assignments)) in
    transitions_for node_id previous next (keys resources)
