-- ===== src/Adapter/Node/Monotone.antt =====
-- What no sequence of calls lowers.
use ganglion.Prelude.{ℕ, ◌≤◌, Option, some, none, List, [], ◌∷◌, ◌≡◌, arith, Result-cases, inl, inr}
use ganglion.Core.Model.{Str, CoordinationSnapshot}
use ganglion.Adapter.Log.{MetadataLog}
use ganglion.Adapter.Node.{
  MetadataNode, Operation, set_leader_term_call, set_leader_call, clear_leader_call,
  apply_snapshot_call, plan_and_apply_call, append_snapshot, apply_snapshot, plan_and_apply,
  set_leader_term, set_leader, clear_leader, current_term, step, run,
}

module _ {S : Type 0} (log : MetadataLog S) where
  apply_snapshot-monotone :
      (node : MetadataNode S) (proposer : Str) (snapshot : CoordinationSnapshot) (term : Option ℕ)
      → let after = (apply_snapshot log node proposer snapshot term).1 in
        ((node.store.current_term ≤ after.store.current_term)
          × (node.store.snapshot.generation ≤ after.store.snapshot.generation))
        × (after.local_node_id ≡ node.local_node_id)
  unfolding apply_snapshot append_snapshot current_term
  apply_snapshot-monotone node proposer snapshot none = ground arith
  apply_snapshot-monotone node proposer snapshot (some t) = ground arith

  step-monotone :
      (call : Operation) (node : MetadataNode S)
      → let after = step log call node in
        ((node.store.current_term ≤ after.store.current_term)
          × (node.store.snapshot.generation ≤ after.store.snapshot.generation))
        × (after.local_node_id ≡ node.local_node_id)
  unfolding step set_leader_term set_leader clear_leader plan_and_apply current_term
  step-monotone (set_leader_term_call node_id term) node = ground arith
  step-monotone (set_leader_call leader_id) node = ground arith
  step-monotone clear_leader_call node = ground arith
  step-monotone (apply_snapshot_call proposer snapshot term) node =
      apply_snapshot-monotone node proposer snapshot term
  step-monotone (plan_and_apply_call proposer plan input) node = elim (Result-cases (plan input)) [
    | inl (e, failed) ↦ ground arith
    | inr (planned, made) ↦ ground (arith, apply_snapshot-monotone node proposer planned none)
  ]

  -- No sequence of calls lowers the term of a node or the generation of its snapshot, or changes
  -- its name, whatever the log does.
  pub run-monotone :
      (calls : List Operation) (node : MetadataNode S)
      → ((node.store.current_term ≤ (run log calls node).store.current_term)
          × (node.store.snapshot.generation ≤ (run log calls node).store.snapshot.generation))
        × ((run log calls node).local_node_id ≡ node.local_node_id)
  unfolding run
  run-monotone [] node = ground arith
  run-monotone (call ∷ calls) node =
      ground (arith, step-monotone call node, run-monotone calls (step log call node))
