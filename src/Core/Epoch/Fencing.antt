-- ===== src/Core/Epoch/Fencing.antt =====
-- What stamping guarantees: a moved resource is fenced, and nothing else changes.
use ganglion.Prelude.{
  ◌≤◌, ◌<◌, Option, some, none, [], ◌∷◌, ◌≡◌, ◌≢◌, ◌↔◌, refl, arith, u64_max, nat_ord, list_ord,
  option_ord, pair_ord,
}
use ganglion.BTreeMap.{BTreeMap, get}
use ganglion.Core.Model.{
  Str, str_eq, ResourceIdentity, resource_ord, PartitionAssignment, CoordinationSnapshot,
}
use ganglion.Core.Epoch.{next_assignment_epoch, stamp_entries, stamp_assignment_epochs}

-- An assignment with the epoch that fencing asks for.
abbrev stamped_from :
    CoordinationSnapshot → ResourceIdentity → PartitionAssignment → PartitionAssignment
stamped_from committed r a = record a {
  epoch = (next_assignment_epoch (get r committed.assignments) a.owner).0;
}

abbrev stamped_option :
    CoordinationSnapshot
    → ResourceIdentity
    → Option PartitionAssignment
    → Option PartitionAssignment
stamped_option committed r none = none
stamped_option committed r (some a) = some (stamped_from committed r a)

get-stamp_entries :
    (c : CoordinationSnapshot) (m : BTreeMap ResourceIdentity PartitionAssignment)
    (r : ResourceIdentity)
    → get r (stamp_entries c m).0 ≡ stamped_option c r (get r m)
unfolding stamp_entries get
get-stamp_entries c [] r = refl
get-stamp_entries c ((k, a) ∷ m) r =
    ground (arith, resource_ord.cmp_eq r k, get-stamp_entries c m r)

-- Every desired assignment reads back as it was, with the epoch of the fencing rule, and no
-- resource is added or dropped.
get-stamp_assignment_epochs :
    (committed desired : CoordinationSnapshot) (r : ResourceIdentity)
    → get r (stamp_assignment_epochs committed desired).0.assignments
      ≡ stamped_option committed r (get r desired.assignments)
unfolding stamp_assignment_epochs
get-stamp_assignment_epochs c d r = get-stamp_entries c d.assignments r

next_epoch_bounds :
    (old : PartitionAssignment) (owner : Str)
    → old.epoch < u64_max
    → (old.epoch ≤ (next_assignment_epoch (some old) owner).0)
      × ((old.owner ≢ owner) ↔ (old.epoch < (next_assignment_epoch (some old) owner).0))
unfolding next_assignment_epoch
next_epoch_bounds old owner h =
    let same = str_eq.equals_iff old.owner owner in
    (ground arith, (λ n. ground arith, λ n. ground arith))

-- When a committed resource is stamped and its epoch is below the maximum of a u64, the epoch
-- does not fall, and it rises exactly when the owner changed.
pub stamp_assignment_epochs_fences :
    (committed desired : CoordinationSnapshot) (r : ResourceIdentity)
    (old new : PartitionAssignment)
    → get r committed.assignments ≡ some old
    → get r (stamp_assignment_epochs committed desired).0.assignments ≡ some new
    → old.epoch < u64_max
    → (old.epoch ≤ new.epoch) × ((old.owner ≢ new.owner) ↔ (old.epoch < new.epoch))
stamp_assignment_epochs_fences c d r old new p q h =
    ground (arith, get-stamp_assignment_epochs c d r, next_epoch_bounds old new.owner h)

stamp_entries-stamp_entries :
    (c : CoordinationSnapshot) (m : BTreeMap ResourceIdentity PartitionAssignment)
    → stamp_entries c (stamp_entries c m).0 ≡ stamp_entries c m
unfolding stamp_entries
stamp_entries-stamp_entries c [] = refl
stamp_entries-stamp_entries c ((k, a) ∷ m) = ground (arith, stamp_entries-stamp_entries c m)

-- Stamping again from the same committed snapshot changes nothing.
stamp_assignment_epochs_idempotent :
    (committed desired : CoordinationSnapshot)
    → stamp_assignment_epochs committed (stamp_assignment_epochs committed desired).0
      ≡ stamp_assignment_epochs committed desired
unfolding stamp_assignment_epochs
stamp_assignment_epochs_idempotent c d = ground (arith, stamp_entries-stamp_entries c d.assignments)
