-- ===== src/Adapter/Node/Synced.antt =====
-- The log of a node in memory against its store (`InMemoryMetadataNode`).
use ganglion.Prelude.{
  ℕ, ◌≤◌, Option, some, none, List, [], ◌∷◌, ◌≡◌, arith, last?, last?-append, Result-cases, inl,
  inr,
}
use ganglion.Core.Model.{Str, CoordinationSnapshot}
use ganglion.Storage.MemoryLog.{MetadataLogEntry}
use ganglion.Storage.MemoryLog as Memory
use ganglion.Adapter.Log.{memory_log}
use ganglion.Adapter.Node.{
  MetadataNode, Operation, set_leader_term_call, set_leader_call, clear_leader_call,
  apply_snapshot_call, plan_and_apply_call, append_snapshot, apply_snapshot, plan_and_apply,
  set_leader_term, set_leader, clear_leader, current_term, step, run,
}

-- The latest entry has the snapshot of the store and a term that is not above the store's; where
-- the log is empty the snapshot is the initial one.
abbrev IsSynced : CoordinationSnapshot → MetadataNode (List MetadataLogEntry) → Type 0
IsSynced initial node = elim (last? node.log) [
  | none ↦ node.store.snapshot ≡ initial
  | some entry ↦ (entry.snapshot ≡ node.store.snapshot) × (entry.term ≤ node.store.current_term)
]

abbrev Node : Type 0
Node = MetadataNode (List MetadataLogEntry)

module _ (initial : CoordinationSnapshot) where
  apply_snapshot-IsSynced :
      (node : Node) (proposer : Str) (snapshot : CoordinationSnapshot) (term : Option ℕ)
      → IsSynced initial node
      → IsSynced initial (apply_snapshot memory_log node proposer snapshot term).1
  unfolding apply_snapshot append_snapshot current_term Memory.append_entry Memory.clear
  apply_snapshot-IsSynced node proposer snapshot none h = ground (
    arith,
    last?-append node.log (Memory.append_entry node.log node.store.current_term snapshot).0,
  )
  apply_snapshot-IsSynced node proposer snapshot (some t) h =
      ground (arith, last?-append node.log (Memory.append_entry node.log t snapshot).0)

  step-IsSynced :
      (call : Operation) (node : Node)
      → IsSynced initial node
      → IsSynced initial (step memory_log call node)
  unfolding step set_leader_term set_leader clear_leader plan_and_apply current_term
  step-IsSynced (set_leader_term_call node_id term) node h = ground arith
  step-IsSynced (set_leader_call leader_id) node h = ground arith
  step-IsSynced clear_leader_call node h = ground arith
  step-IsSynced (apply_snapshot_call proposer snapshot term) node h =
      apply_snapshot-IsSynced node proposer snapshot term h
  step-IsSynced (plan_and_apply_call proposer plan input) node h =
      elim (Result-cases (plan input)) [
        | inl (e, failed) ↦ ground arith
        | inr (planned, made) ↦ ground (arith, apply_snapshot-IsSynced node proposer planned none h)
      ]

  -- After any sequence of calls to a node in memory, the latest entry of its log has the snapshot
  -- of the node and a term that is not above the node's, and where the log is empty the snapshot
  -- is the one that the node began with, if that held before.
  run-IsSynced :
      (calls : List Operation) (node : Node)
      → IsSynced initial node
      → IsSynced initial (run memory_log calls node)
  unfolding run
  run-IsSynced [] node h = h
  run-IsSynced (call ∷ calls) node h =
      run-IsSynced calls (step memory_log call node) (step-IsSynced call node h)
