-- ===== src/Coordination/Resources.antt =====
-- The lists of resources against the questions about one resource.
use ganglion.Prelude.{
  Bool, false, [], ◌∷◌, ◌≡◌, ◌==◌, refl, arith, contains, any, Option-cases, inl, inr, Option, some,
  none,
}
use ganglion.BTreeMap.{BTreeMap, get}
use ganglion.BTreeMap.Sorted.{IsSorted, Above}
use ganglion.Core.Model.{
  Str, str_eq, ResourceIdentity, resource_ord, resource_eq, PartitionAssignment,
  CoordinationSnapshot, assignment_for, is_owned_by, is_followed_by,
}
use ganglion.Coordination.{
  keys_where, owns_resource, follows_resource, static_owns_resource, static_follows_resource,
  owned_resources, followed_resources,
}

abbrev holds_at : (PartitionAssignment → Bool) → Option PartitionAssignment → Bool
holds_at p none = false
holds_at p (some a) = p a

contains-Above :
    (p : PartitionAssignment → Bool) (k : ResourceIdentity)
    (m : BTreeMap ResourceIdentity PartitionAssignment)
    → Above k m
    → contains (keys_where p m) k ≡ false
contains-Above p k [] h = refl
contains-Above p k ((j, a) ∷ m) h =
    ground (arith, contains-Above p k m h.1, resource_eq.equals_iff j k, resource_ord.cmp_refl k)

contains-keys_where :
    (p : PartitionAssignment → Bool) (r : ResourceIdentity)
    (m : BTreeMap ResourceIdentity PartitionAssignment)
    → IsSorted m
    → contains (keys_where p m) r ≡ holds_at p (get r m)
unfolding get
contains-keys_where p r [] s = refl
contains-keys_where p r ((j, a) ∷ m) s = ground (
  arith,
  contains-keys_where p r m s.1,
  contains-Above p j m s.0,
  resource_eq.equals_iff j r,
  resource_ord.cmp_eq r j,
  resource_ord.cmp_refl r,
)

-- The resources that are listed for a node are those that the provider says it owns, or follows,
-- and the static provider says the same of a snapshot as the one in memory. The assignments are in
-- key order.
contains-owned_resources :
    (s : CoordinationSnapshot) (node_id : Str) (r : ResourceIdentity)
    → IsSorted s.assignments
    → ((contains (owned_resources s node_id) r ≡ owns_resource s node_id r)
        × (contains (followed_resources s node_id) r ≡ follows_resource s node_id r))
      × ((static_owns_resource s node_id r ≡ owns_resource s node_id r)
          × (static_follows_resource s node_id r ≡ follows_resource s node_id r))
unfolding owned_resources followed_resources owns_resource follows_resource static_owns_resource
    static_follows_resource assignment_for is_owned_by is_followed_by
contains-owned_resources s node_id r sorted =
    let owned = contains-keys_where (λ a. a.owner == node_id) r s.assignments sorted in
    let followed =
      contains-keys_where (λ a. any (λ follower. follower == node_id) a.followers) r s.assignments
        sorted in
    elim (Option-cases (get r s.assignments)) [
      | inl none_there ↦ ground arith
      | inr (a, found) ↦ ground arith
    ]
