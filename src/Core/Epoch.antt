-- ===== src/Core/Epoch.antt =====
-- Fencing epochs of `crates/ganglion-core/src/lib.rs`.
pub mod Fencing
use ganglion.Prelude.{
  ℕ, Option, some, none, List, [], ◌∷◌, ◌==◌, if◌then◌else◌, wrapping_add, nat_ord, list_ord,
  option_ord, pair_ord,
}
use ganglion.BTreeMap.{BTreeMap, get}
use ganglion.Core.Model.{
  Str, str_eq, ResourceIdentity, resource_ord, PartitionAssignment, CoordinationSnapshot,
}

pub data EpochTransition : Type 0 where
  unchanged owner_changed new_assignment : EpochTransition

unfoldable pub next_assignment_epoch : Option PartitionAssignment → Str → ℕ × EpochTransition
next_assignment_epoch none desired_owner = (1, new_assignment)
next_assignment_epoch (some current) desired_owner =
    if current.owner == desired_owner
    then (current.epoch, unchanged)
    else (wrapping_add current.epoch 1, owner_changed)

unfoldable fence_assignment_epoch : PartitionAssignment → ℕ
fence_assignment_epoch committed = wrapping_add committed.epoch 1

-- The `for` loop of `stamp_assignment_epochs` over the desired assignments.
unfoldable pub stamp_entries :
    CoordinationSnapshot
    → BTreeMap ResourceIdentity PartitionAssignment
    → BTreeMap ResourceIdentity PartitionAssignment × List (ResourceIdentity × EpochTransition)
unfolding next_assignment_epoch
stamp_entries committed [] = ([], [])
stamp_entries committed ((resource, assignment) ∷ rest) =
    let (epoch, transition) =
      next_assignment_epoch (get resource committed.assignments) assignment.owner in
    let (stamped, transitions) = stamp_entries committed rest in
    (
      (resource, record assignment { epoch = epoch }) ∷ stamped,
      (resource, transition) ∷ transitions,
    )

unfoldable pub stamp_assignment_epochs :
    CoordinationSnapshot
    → CoordinationSnapshot
    → CoordinationSnapshot × List (ResourceIdentity × EpochTransition)
unfolding stamp_entries
stamp_assignment_epochs committed desired =
    let (stamped, transitions) = stamp_entries committed desired.assignments in
    (record desired { assignments = stamped }, transitions)
