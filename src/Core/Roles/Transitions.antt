-- ===== src/Core/Roles/Transitions.antt =====
-- Which resources get a local transition.
use ganglion.Prelude.{
  some, none, Bool, true, false, List, [], ◌∷◌, map, ◌==◌, ◌&&◌, ◌||◌, ◌≡◌, ◌⊎◌, refl, ◌∙◌, arith,
  contains, Bool-cases, inl, inr,
}
use ganglion.BTreeMap.{BTreeMap, BTreeSet, get, insert, extend, keys, contains_key}
use ganglion.BTreeMap.Sorted.{get-insert_self, get-insert_ne}
use ganglion.Core.Model.{
  Str, str_eq, ResourceIdentity, resource_ord, resource_eq, CoordinationSnapshot, assignment_for,
}
use ganglion.Core.Roles.{
  LocalRole, owner, follower, none_held, LocalTransition, keep_owner, keep_follower,
  promote_follower_to_owner, demote_owner_to_follower, stop_serving, role_in, local_assignment_role,
  transition_for, transitions_for, with_unit, plan_local_assignment_transitions,
}

abbrev pub resource_of : LocalTransition → ResourceIdentity
resource_of (keep_owner r) = r
resource_of (keep_follower r) = r
resource_of (promote_follower_to_owner r to_epoch) = r
resource_of (demote_owner_to_follower r from_epoch to_epoch) = r
resource_of (stop_serving r was_owner) = r

abbrev is_held : LocalRole → Bool
is_held owner = true
is_held follower = true
is_held none_held = false

contains-keys :
    {V : Type 0} (m : BTreeMap ResourceIdentity V) (r : ResourceIdentity)
    → contains (keys m) r ≡ contains_key r m
unfolding get
contains-keys [] r = refl
contains-keys ((k, v) ∷ m) r = ground (
  arith,
  contains-keys m r,
  resource_ord.cmp_eq r k,
  resource_ord.cmp_refl r,
  resource_eq.equals_iff k r,
)

contains_key-insert :
    (k r : ResourceIdentity) (m : BTreeSet ResourceIdentity)
    → contains_key r (insert k tt m) ≡ ((k == r) || contains_key r m)
contains_key-insert k r m = elim (Bool-cases (k == r)) [
  | inl e ↦ ground (arith, get-insert_self r tt m, resource_eq.equals_iff k r)
  | inr n ↦ ground (arith, get-insert_ne k r tt m, resource_eq.equals_iff k r)
]

contains_key-extend :
    (m : BTreeSet ResourceIdentity) (rs : List ResourceIdentity) (r : ResourceIdentity)
    → contains_key r (extend m (with_unit rs)) ≡ (contains rs r || contains_key r m)
unfolding extend
contains_key-extend m [] r = refl
contains_key-extend m (k ∷ rs) r =
    ground (arith, contains_key-extend (insert k tt m) rs r, contains_key-insert k r m)

role_unassigned :
    (s : CoordinationSnapshot) (node_id : Str) (r : ResourceIdentity)
    → contains_key r s.assignments ≡ false
    → is_held (local_assignment_role s node_id r) ≡ false
unfolding local_assignment_role role_in assignment_for
role_unassigned s node_id r h = ground arith

module _ (node_id : Str) (previous next : CoordinationSnapshot) where
  -- Whether the node holds the resource before or after.
  abbrev pub is_involved : ResourceIdentity → Bool
  is_involved r =
      is_held (local_assignment_role previous node_id r)
      || is_held (local_assignment_role next node_id r)

  transition_for-cases :
      (r : ResourceIdentity) (before after : LocalRole)
      → ((transition_for previous next r before after ≡ none)
          × ((is_held before || is_held after) ≡ false))
        ⊎ ((t : LocalTransition) × (transition_for previous next r before after ≡ some t)
            × (resource_of t ≡ r)
            × ((is_held before || is_held after) ≡ true))
  unfolding transition_for
  transition_for-cases r owner owner = inr (_, refl, refl, refl)
  transition_for-cases r owner follower = inr (_, refl, refl, refl)
  transition_for-cases r owner none_held = inr (_, refl, refl, refl)
  transition_for-cases r follower owner = inr (_, refl, refl, refl)
  transition_for-cases r follower follower = inr (_, refl, refl, refl)
  transition_for-cases r follower none_held = inr (_, refl, refl, refl)
  transition_for-cases r none_held owner = inr (_, refl, refl, refl)
  transition_for-cases r none_held follower = inr (_, refl, refl, refl)
  transition_for-cases r none_held none_held = inl (refl, refl)

  contains-transitions_for :
      (rs : List ResourceIdentity) (r : ResourceIdentity)
      → contains (map resource_of (transitions_for node_id previous next rs)) r
        ≡ (contains rs r && is_involved r)
  unfolding transitions_for
  contains-transitions_for [] r = refl
  contains-transitions_for (k ∷ rs) r =
      elim (transition_for-cases k (local_assignment_role previous node_id k)
        (local_assignment_role next node_id k)) [
          | inl (skipped, idle) ↦
              ground (arith, contains-transitions_for rs r, resource_eq.equals_iff k r)
          | inr (t, made, about, busy) ↦
              ground (arith, contains-transitions_for rs r, resource_eq.equals_iff k r)
        ]

  -- A node gets a transition for a resource exactly when it owns or follows it before or after.
  pub plan_local_assignment_transitions-covers :
      (r : ResourceIdentity)
      → contains (map resource_of (plan_local_assignment_transitions node_id previous next)) r
        ≡ is_involved r
  unfolding plan_local_assignment_transitions get
  plan_local_assignment_transitions-covers r =
      let before = with_unit (keys previous.assignments) in
      let after = with_unit (keys next.assignments) in
      let all : BTreeSet ResourceIdentity = extend (extend [] before) after in
      contains-transitions_for (keys all) r
      ∙ ground (
        arith,
        contains-keys all r,
        contains_key-extend (extend [] before) (keys next.assignments) r,
        contains_key-extend [] (keys previous.assignments) r,
        contains-keys previous.assignments r,
        contains-keys next.assignments r,
        role_unassigned previous node_id r,
        role_unassigned next node_id r,
      )
