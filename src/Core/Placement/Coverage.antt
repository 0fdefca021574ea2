-- ===== src/Core/Placement/Coverage.antt =====
-- Which resources the loops of the policies assign, through the sort and the removal of doubles.
use ganglion.Prelude.{
  ℕ, ◌+◌, List, [], ◌∷◌, ◌==◌, ◌||◌, ◌≡◌, refl, ◌∙◌, arith, contains, Bool-cases, inl, inr,
}
use ganglion.BTreeMap.{BTreeMap, get, insert, keys, contains_key}
use ganglion.BTreeMap.Sorted.{get-insert_self, get-insert_ne}
use ganglion.Core.Model.{Str, ResourceIdentity, resource_ord, resource_eq, PartitionAssignment}
use ganglion.Core.Placement.{PlacementInput, place_in_turn, insert_sorted, sort, dedup_from, dedup}
use ganglion.Core.Placement.Balanced.{balanced_owner, add_load, place_by_load}

contains-insert_sorted :
    (r z : ResourceIdentity) (rs : List ResourceIdentity)
    → contains (insert_sorted r rs) z ≡ contains (r ∷ rs) z
unfolding insert_sorted
contains-insert_sorted r z [] = refl
contains-insert_sorted r z (s ∷ rs) = ground (arith, contains-insert_sorted r z rs)

contains-sort :
    (rs : List ResourceIdentity) (z : ResourceIdentity) → contains (sort rs) z ≡ contains rs z
unfolding sort
contains-sort [] z = refl
contains-sort (r ∷ rs) z = ground (arith, contains-insert_sorted r z (sort rs), contains-sort rs z)

contains-dedup_from :
    (last : ResourceIdentity) (rs : List ResourceIdentity) (z : ResourceIdentity)
    → contains (last ∷ dedup_from last rs) z ≡ contains (last ∷ rs) z
unfolding dedup_from
contains-dedup_from last [] z = refl
contains-dedup_from last (r ∷ rs) z =
    ground (arith, contains-dedup_from r rs z, resource_eq.equals_iff last r)

contains-dedup_list :
    (rs : List ResourceIdentity) (z : ResourceIdentity) → contains (dedup rs) z ≡ contains rs z
unfolding dedup
contains-dedup_list [] z = refl
contains-dedup_list (r ∷ rs) z = contains-dedup_from r rs z

-- Sorting and removing doubles neither adds nor loses a resource.
pub contains-dedup :
    (rs : List ResourceIdentity) (z : ResourceIdentity)
    → contains (dedup (sort rs)) z ≡ contains rs z
contains-dedup rs z = contains-dedup_list (sort rs) z ∙ contains-sort rs z

contains_key-insert :
    (r z : ResourceIdentity) (a : PartitionAssignment)
    (m : BTreeMap ResourceIdentity PartitionAssignment)
    → contains_key z (insert r a m) ≡ ((r == z) || contains_key z m)
contains_key-insert r z a m = elim (Bool-cases (r == z)) [
  | inl e ↦ ground (arith, get-insert_self z a m, resource_eq.equals_iff r z)
  | inr n ↦ ground (arith, get-insert_ne r z a m, resource_eq.equals_iff r z)
]

-- An assignment of one more resource joins the resources covered.
covers_step :
    (r z : ResourceIdentity) (rs : List ResourceIdentity) (a : PartitionAssignment)
    (m : BTreeMap ResourceIdentity PartitionAssignment)
    → (contains rs z || contains_key z (insert r a m)) ≡ (contains (r ∷ rs) z || contains_key z m)
covers_step r z rs a m = rw (contains_key-insert r z a m) (ground arith)

module _ (input : PlacementInput) (z : ResourceIdentity) where
  pub contains_key-place_in_turn :
      (idx : ℕ) (rs : List ResourceIdentity) (m : BTreeMap ResourceIdentity PartitionAssignment)
      → contains_key z (place_in_turn input idx rs m) ≡ (contains rs z || contains_key z m)
  unfolding place_in_turn
  contains_key-place_in_turn idx [] m = refl
  contains_key-place_in_turn idx (r ∷ rs) m =
      contains_key-place_in_turn (idx + 1) rs _ ∙ covers_step r z rs _ m

  pub contains_key-place_by_load :
      (load : BTreeMap Str ℕ) (rs : List ResourceIdentity)
      (m : BTreeMap ResourceIdentity PartitionAssignment)
      → contains_key z (place_by_load input load rs m) ≡ (contains rs z || contains_key z m)
  unfolding place_by_load
  contains_key-place_by_load load [] m = refl
  contains_key-place_by_load load (r ∷ rs) m =
      contains_key-place_by_load
        (add_load (balanced_owner (keys input.nodes) (get r input.existing) load) load) rs _
      ∙ covers_step r z rs _ m
