-- ===== src/Core/Placement/Policies.antt =====
-- The two placement policies as a whole.
use ganglion.Prelude.{
  ◌<◌, List, [], ◌∷◌, ◌↔◌, ◌≡◌, ◌≢◌, refl, sym, ◌∙◌, arith, Result, ok, err, length, contains,
  Distinct,
}
use ganglion.BTreeMap.{BTreeMap, get, keys, contains_key}
use ganglion.BTreeMap.Sorted.{Each}
use ganglion.Core.Model.{
  Str, str_eq, ResourceIdentity, resource_ord, resource_eq, NodeInfo, PartitionAssignment,
  CoordinationSnapshot,
}
use ganglion.Core.Placement.{
  PlacementInput, PlacementError, no_nodes_for_resources, planned_snapshot, place_in_turn, sort,
  dedup, plan_deterministic,
}
use ganglion.Core.Placement.Balanced.{place_by_load, live_owner_load, plan_least_loaded}
use ganglion.Core.Placement.Plans.{IsPlaced, place_in_turn-IsPlaced, place_by_load-IsPlaced}
use ganglion.Core.Placement.Coverage.{
  contains-dedup, contains_key-place_in_turn, contains_key-place_by_load,
}

-- What a policy returns: the live nodes and the generation it was given, an assignment for exactly
-- the resources asked for, and each assignment placed as promised.
pub record IsPlan (input : PlacementInput) (plan : CoordinationSnapshot) : Type 0 where
  pub same_nodes : plan.nodes ≡ input.nodes
  pub same_generation : plan.generation ≡ input.generation
  pub assigned :
      (r : ResourceIdentity) → contains_key r plan.assignments ≡ contains input.resources r
  pub placed : Each (IsPlaced input) plan.assignments

-- Both policies are this choice, for their own loop.
outcome :
    (input : PlacementInput)
    → (List ResourceIdentity → BTreeMap ResourceIdentity PartitionAssignment)
    → List ResourceIdentity
    → BTreeMap Str NodeInfo
    → Result PlacementError CoordinationSnapshot
unfolding planned_snapshot
outcome input place [] nodes = ok (planned_snapshot input [])
outcome input place (r ∷ rs) [] = err no_nodes_for_resources
outcome input place (r ∷ rs) (_ ∷ _) = ok (planned_snapshot input (place (r ∷ rs)))

module _ (input : PlacementInput)
    (place : List ResourceIdentity → BTreeMap ResourceIdentity PartitionAssignment)
    (place_none : place [] ≡ []) where
  outcome_ok :
      (rs : List ResourceIdentity) (nodes : BTreeMap Str NodeInfo)
      → 0 < length (keys nodes)
      → outcome input place rs nodes ≡ ok (planned_snapshot input (place rs))
  unfolding outcome
  outcome_ok [] nodes h = rw place_none refl
  outcome_ok (r ∷ rs) [] h = absurd (omega arith)
  outcome_ok (r ∷ rs) (n ∷ nodes) h = refl

plan_deterministic-outcome :
    (input : PlacementInput)
    → plan_deterministic input
      ≡ outcome input (λ rs. place_in_turn input 0 rs []) (dedup (sort input.resources)) input.nodes
unfolding plan_deterministic outcome
plan_deterministic-outcome input = go (dedup (sort input.resources)) input.nodes
  where
    go :
        (rs : List ResourceIdentity) (nodes : BTreeMap Str NodeInfo)
        → (elim rs as (λ _. Result PlacementError CoordinationSnapshot) [
          | [] ↦ ok (planned_snapshot input [])
          | r ∷ rs ↦ elim nodes as (λ _. Result PlacementError CoordinationSnapshot) [
            | [] ↦ err no_nodes_for_resources
            | _ ∷ _ ↦ ok (planned_snapshot input (place_in_turn input 0 (r ∷ rs) []))
          ]
        ])
          ≡ outcome input (λ rs. place_in_turn input 0 rs []) rs nodes
    go [] nodes = refl
    go (r ∷ rs) [] = refl
    go (r ∷ rs) (_ ∷ _) = refl

plan_least_loaded-outcome :
    (input : PlacementInput)
    → plan_least_loaded input
      ≡ outcome input
          (λ rs. place_by_load input (live_owner_load input.nodes input.existing) rs [])
          (dedup (sort input.resources))
          input.nodes
unfolding plan_least_loaded outcome
plan_least_loaded-outcome input = go (dedup (sort input.resources)) input.nodes
  where
    place : List ResourceIdentity → BTreeMap ResourceIdentity PartitionAssignment
    place rs = place_by_load input (live_owner_load input.nodes input.existing) rs []

    go :
        (rs : List ResourceIdentity) (nodes : BTreeMap Str NodeInfo)
        → (elim rs as (λ _. Result PlacementError CoordinationSnapshot) [
          | [] ↦ ok (planned_snapshot input [])
          | r ∷ rs ↦ elim nodes as (λ _. Result PlacementError CoordinationSnapshot) [
            | [] ↦ err no_nodes_for_resources
            | _ ∷ _ ↦ ok (planned_snapshot input (place (r ∷ rs)))
          ]
        ])
          ≡ outcome input place rs nodes
    go [] nodes = refl
    go (r ∷ rs) [] = refl
    go (r ∷ rs) (_ ∷ _) = refl

-- With distinct live nodes, at least one, the deterministic policy returns a plan: it keeps the
-- nodes and the generation, assigns exactly the resources asked for, and each assignment has a
-- live owner (the old one if it is live), as many live followers other than the owner as asked
-- for and available, the old epoch or the next one with a new owner, and the old durability
-- policy.
pub plan_deterministic-IsPlan :
    (input : PlacementInput)
    → Distinct (keys input.nodes)
    → 0 < length (keys input.nodes)
    → (plan : CoordinationSnapshot) × ((plan_deterministic input ≡ ok plan) × IsPlan input plan)
unfolding planned_snapshot place_in_turn get
plan_deterministic-IsPlan input distinct some_nodes =
    let rs = dedup (sort input.resources) in
    (
      planned_snapshot input (place_in_turn input 0 rs []),
      (
        plan_deterministic-outcome input
            ∙ outcome_ok input (λ rs. place_in_turn input 0 rs []) refl rs input.nodes some_nodes,
        record {
          same_nodes = refl;
          same_generation = refl;
          assigned = λ r.
              contains_key-place_in_turn input r 0 rs []
              ∙ rw (contains-dedup input.resources r) (ground arith);
          placed = place_in_turn-IsPlaced input distinct some_nodes 0 rs [] tt;
        },
      ),
    )

-- With distinct live nodes, at least one, the load-aware policy returns a plan: it keeps the
-- nodes and the generation, assigns exactly the resources asked for, and each assignment has a
-- live owner (the old one if it is live), as many live followers other than the owner as asked
-- for and available, the old epoch or the next one with a new owner, and the old durability
-- policy.
pub plan_least_loaded-IsPlan :
    (input : PlacementInput)
    → Distinct (keys input.nodes)
    → 0 < length (keys input.nodes)
    → (plan : CoordinationSnapshot) × ((plan_least_loaded input ≡ ok plan) × IsPlan input plan)
unfolding planned_snapshot place_by_load get
plan_least_loaded-IsPlan input distinct some_nodes =
    let rs = dedup (sort input.resources) in
    let load = live_owner_load input.nodes input.existing in
    (
      planned_snapshot input (place_by_load input load rs []),
      (
        plan_least_loaded-outcome input
            ∙ outcome_ok input (λ rs. place_by_load input load rs []) refl rs input.nodes
                some_nodes,
        record {
          same_nodes = refl;
          same_generation = refl;
          assigned = λ r.
              contains_key-place_by_load input r load rs []
              ∙ rw (contains-dedup input.resources r) (ground arith);
          placed = place_by_load-IsPlaced input distinct some_nodes load rs [] tt;
        },
      ),
    )

outcome_err :
    (input : PlacementInput)
    (place : List ResourceIdentity → BTreeMap ResourceIdentity PartitionAssignment)
    (rs : List ResourceIdentity) (nodes : BTreeMap Str NodeInfo)
    → (outcome input place rs nodes ≡ err no_nodes_for_resources) ↔ ((nodes ≡ []) × (rs ≢ []))
unfolding outcome
outcome_err input place [] nodes = ((λ h. cc), λ h. absurd (h.1 refl))
outcome_err input place (r ∷ rs) [] = ((λ h. (refl, λ p. cc)), λ h. refl)
outcome_err input place (r ∷ rs) (n ∷ nodes) = ((λ h. cc), λ h. cc)

dedup-sort_nil : (rs : List ResourceIdentity) → (dedup (sort rs) ≡ []) ↔ (rs ≡ [])
unfolding dedup sort
dedup-sort_nil [] = ((λ h. refl), λ h. refl)
dedup-sort_nil (r ∷ rs) = (
  (λ h. absurd (ground (arith, contains-dedup (r ∷ rs) r, resource_eq.equals_iff r r, h))),
  λ h. cc,
)

fails_iff :
    (input : PlacementInput)
    (place : List ResourceIdentity → BTreeMap ResourceIdentity PartitionAssignment)
    (result : Result PlacementError CoordinationSnapshot)
    → result ≡ outcome input place (dedup (sort input.resources)) input.nodes
    → (result ≡ err no_nodes_for_resources) ↔ ((input.nodes ≡ []) × (input.resources ≢ []))
fails_iff input place result h =
    let fails = outcome_err input place (dedup (sort input.resources)) input.nodes in
    let nil = dedup-sort_nil input.resources in
    (
      (λ e. let both = fails.0 (sym h ∙ e) in (both.0, λ none_asked. both.1 (nil.1 none_asked))),
      λ both. h ∙ fails.1 (both.0, λ e. both.1 (nil.0 e)),
    )

-- Either policy fails exactly when resources are asked for and no node is live.
plans_fail_together :
    (input : PlacementInput)
    → ((plan_deterministic input ≡ err no_nodes_for_resources)
        ↔ ((input.nodes ≡ []) × (input.resources ≢ [])))
      × ((plan_least_loaded input ≡ err no_nodes_for_resources)
          ↔ ((input.nodes ≡ []) × (input.resources ≢ [])))
plans_fail_together input = (
  fails_iff input _ (plan_deterministic input) (plan_deterministic-outcome input),
  fails_iff input _ (plan_least_loaded input) (plan_least_loaded-outcome input),
)
