-- ===== src/Adapter/Node/Guards.antt =====
-- What a refused or failed `apply_snapshot` leaves of a node.
use ganglion.Prelude.{ℕ, ◌≤◌, ◌<◌, Option, some, none, ◌≡◌, ◌≢◌, ◌⊎◌, arith, ok, err}
use ganglion.Core.Model.{Str, str_eq, option_str_eq, CoordinationSnapshot}
use ganglion.Storage.MemoryLog.{MetadataLogEntry}
use ganglion.Storage.FileLog.{MetadataLogError}
use ganglion.Adapter.Error.{not_leader, stale_generation, stale_term, storage}
use ganglion.Adapter.Log.{MetadataLog}
use ganglion.Adapter.Node.{
  OpenraftLikeStore, MetadataNode, NodeError, append_snapshot, apply_snapshot, current_term,
}

-- The term that a call proposes at.
abbrev pub proposed_term : {S : Type 0} → MetadataNode S → Option ℕ → ℕ
proposed_term node term = elim term [ none ↦ node.store.current_term | some t ↦ t ]

module _ {S : Type 0} (log : MetadataLog S) where
  -- What an append that succeeds changes of the store, and what it asked.
  pub append_snapshot-ok :
      (store after : OpenraftLikeStore) (s t : S) (proposer : Str) (snapshot : CoordinationSnapshot)
      (term : ℕ) (entry : MetadataLogEntry)
      → append_snapshot log store s proposer snapshot term ≡ (ok entry, (after, t))
      → ((store.leader ≡ some proposer)
          × ((store.current_term ≤ term) × (store.snapshot.generation ≤ snapshot.generation)))
        × ((after.snapshot ≡ snapshot)
            × ((after.current_term ≡ term) × (after.leader ≡ store.leader)))
  unfolding append_snapshot
  append_snapshot-ok store after s t proposer snapshot term entry h =
      ground (arith, option_str_eq.equals_iff store.leader (some proposer))

  -- What an append that fails leaves of the store, and why it fails.
  append_snapshot-err :
      (store after : OpenraftLikeStore) (s t : S) (proposer : Str) (snapshot : CoordinationSnapshot)
      (term : ℕ) (error : NodeError)
      → append_snapshot log store s proposer snapshot term ≡ (err error, (after, t))
      → (((after ≡ store) × (t ≡ s))
          × (((error ≡ not_leader) × (store.leader ≢ some proposer))
              ⊎ (((error ≡ stale_term) × (term < store.current_term))
                  ⊎ ((error ≡ stale_generation)
                      × (snapshot.generation < store.snapshot.generation)))))
        ⊎ (((e : MetadataLogError) × (error ≡ storage e))
            × ((after.snapshot ≡ store.snapshot)
                × ((after.leader ≡ store.leader) × (store.current_term ≤ after.current_term))))
  unfolding append_snapshot
  append_snapshot-err store after s t proposer snapshot term error h =
      ground (arith, option_str_eq.equals_iff store.leader (some proposer))

  -- A snapshot that is applied was proposed by the leader, at a term and with a generation that
  -- are not below the node's. It and that term are the node's after, and the leader and the name
  -- of the node stay.
  pub apply_snapshot-ok :
      (node after : MetadataNode S) (proposer : Str) (snapshot : CoordinationSnapshot)
      (term : Option ℕ)
      → apply_snapshot log node proposer snapshot term ≡ (ok tt, after)
      → ((node.store.leader ≡ some proposer)
          × ((node.store.current_term ≤ proposed_term node term)
              × (node.store.snapshot.generation ≤ snapshot.generation)))
        × (((after.store.snapshot ≡ snapshot)
              × (after.store.current_term ≡ proposed_term node term))
            × ((after.store.leader ≡ node.store.leader)
                × (after.local_node_id ≡ node.local_node_id)))
  unfolding apply_snapshot append_snapshot current_term
  apply_snapshot-ok node after proposer snapshot none h =
      ground (arith, option_str_eq.equals_iff node.store.leader (some proposer))
  apply_snapshot-ok node after proposer snapshot (some t) h =
      ground (arith, option_str_eq.equals_iff node.store.leader (some proposer))

  -- A snapshot that is not applied was proposed by another than the leader, at a term or with a
  -- generation below the node's, and the node is as before; or the log failed, and the snapshot,
  -- the leader and the name of the node are as before, while the term may have risen.
  pub apply_snapshot-err :
      (node after : MetadataNode S) (proposer : Str) (snapshot : CoordinationSnapshot)
      (term : Option ℕ) (error : NodeError)
      → apply_snapshot log node proposer snapshot term ≡ (err error, after)
      → ((after ≡ node)
          × (((error ≡ not_leader) × (node.store.leader ≢ some proposer))
              ⊎ (((error ≡ stale_term) × (proposed_term node term < node.store.current_term))
                  ⊎ ((error ≡ stale_generation)
                      × (snapshot.generation < node.store.snapshot.generation)))))
        ⊎ (((e : MetadataLogError) × (error ≡ storage e))
            × (((after.store.snapshot ≡ node.store.snapshot)
                  × (after.store.leader ≡ node.store.leader))
                × ((after.local_node_id ≡ node.local_node_id)
                    × (node.store.current_term ≤ after.store.current_term))))
  unfolding apply_snapshot append_snapshot current_term
  apply_snapshot-err node after proposer snapshot none error h =
      ground (arith, option_str_eq.equals_iff node.store.leader (some proposer))
  apply_snapshot-err node after proposer snapshot (some t) error h =
      ground (arith, option_str_eq.equals_iff node.store.leader (some proposer))
