-- ===== src/Adapter/Consensus/Publish.antt =====
-- `plan_and_publish` of `crates/ganglion-openraft/src/lib.rs`, over any engine.
use ganglion.Prelude.{
  ◌≤◌, some, none, List, [], ◌∷◌, ◌≡◌, ◌⊎◌, inl, inr, arith, Result, ok, err, Result-cases,
}
use ganglion.Core.Model.{Str, option_str_eq, CoordinationSnapshot}
use ganglion.Core.Placement.{PlacementInput, PlacementError}
use ganglion.Adapter.Error.{planner}
use ganglion.Adapter.Log.{MetadataLog}
use ganglion.Adapter.Node.{MetadataNode, NodeError, apply_snapshot, plan_and_apply}
use ganglion.Adapter.Consensus.{MetadataConsensus, IsConsensus, node_consensus}

module _ {N : Type 0} (consensus : MetadataConsensus N) where
  -- `plan_and_publish`, with what the observer is given.
  unfoldable pub plan_and_publish :
      N
      → Str
      → (PlacementInput → Result PlacementError CoordinationSnapshot)
      → PlacementInput
      → Result NodeError CoordinationSnapshot × (N × List CoordinationSnapshot)
  plan_and_publish node proposer plan input = elim (plan input) [
    | err e ↦ (err (planner e), (node, []))
    | ok planned ↦
        let (result, after) = consensus.apply_snapshot node proposer planned none in
        elim result [ err e ↦ (err e, (after, [])) | ok _ ↦ (ok planned, (after, planned ∷ [])) ]
  ]

  -- Over any engine that keeps the contract of a caller, the observer is given a snapshot exactly
  -- when the call succeeds, once: it is the plan, the proposer is the leader, the generation is not
  -- lowered, and the engine holds the plan from then on. A call that fails gives the observer
  -- nothing and leaves the snapshot of the engine.
  pub plan_and_publish-IsConsensus :
      (node : N) (proposer : Str)
      (plan : PlacementInput → Result PlacementError CoordinationSnapshot) (input : PlacementInput)
      → IsConsensus consensus
      → let (result, (after, published)) = plan_and_publish node proposer plan input in
        ((planned : CoordinationSnapshot) × ((plan input ≡ ok planned)
            × (result ≡ ok planned)
            × (published ≡ planned ∷ []))
          × (consensus.snapshot after ≡ planned)
          × (consensus.leader_id node ≡ some proposer)
          × ((consensus.snapshot node).generation ≤ planned.generation))
        ⊎ ((e : NodeError) × (result ≡ err e)
            × (published ≡ [])
            × (consensus.snapshot after ≡ consensus.snapshot node))
  unfolding plan_and_publish
  plan_and_publish-IsConsensus node proposer plan input laws = elim (Result-cases (plan input)) [
    | inl (e, failed) ↦ inr (planner e, ground arith, ground arith, ground arith)
    | inr (planned, made) ↦
        let after = (consensus.apply_snapshot node proposer planned none).1 in
        elim (Result-cases (consensus.apply_snapshot node proposer planned none).0) [
          | inl (e, refusal) ↦
              let kept = laws.refused node after proposer planned none e (ground arith) in
              inr (e, ground arith, ground arith, ground arith)
          | inr (t, done) ↦
              let held = laws.applied node after proposer planned none (ground arith) in
              inl (planned, (made, ground arith, ground arith), ground arith, held.0.0, held.0.1)
        ]
  ]

-- Apart from the observer, `plan_and_publish` on a node is its own `plan_and_apply`: the same result
-- and the same node, on every branch.
plan_and_publish-plan_and_apply :
    {S : Type 0} (log : MetadataLog S) (node : MetadataNode S) (proposer : Str)
    (plan : PlacementInput → Result PlacementError CoordinationSnapshot) (input : PlacementInput)
    → let (result, (after, published)) =
        plan_and_publish (node_consensus log) node proposer plan input in
      plan_and_apply log node proposer plan input ≡ (result, after)
unfolding plan_and_publish plan_and_apply
plan_and_publish-plan_and_apply log node proposer plan input = elim (Result-cases (plan input)) [
  | inl (e, failed) ↦ ground arith
  | inr (planned, made) ↦ elim (Result-cases (apply_snapshot log node proposer planned none).0) [
    | inl (e, refused) ↦ ground arith
    | inr (t, applied) ↦ ground arith
  ]
]
