-- ===== src/Adapter/Node.antt =====
-- `OpenraftLikeStore` and `MetadataNode`, to which its two wrappers delegate, of
-- `crates/ganglion-openraft/src/lib.rs`. The locks are taken for the whole of each call and are
-- never poisoned, since no call panics.
pub mod Guards
pub mod Monotone
pub mod Reopen
pub mod Synced
use ganglion.Prelude.{
  ℕ, Option, some, none, Bool, List, [], ◌∷◌, ◌==◌, not, ltb, leb, if◌then◌else◌, length, Result,
  ok, err,
}
use ganglion.Core.Model.{Str, option_str_eq, CoordinationSnapshot}
use ganglion.Core.Placement.{PlacementInput, PlacementError}
use ganglion.Storage.MemoryLog.{MetadataLogEntry}
use ganglion.Storage.FileLog.{MetadataLogError}
use ganglion.Adapter.Error.{
  OpenraftAdapterError, not_leader, stale_generation, stale_term, planner, storage,
}
use ganglion.Adapter.Log.{MetadataLog}

pub record OpenraftLikeStore : Type 0 where
  pub current_term : ℕ
  pub leader : Option Str
  pub snapshot : CoordinationSnapshot

-- `OpenraftLikeStore::is_leader`
abbrev pub leads : OpenraftLikeStore → Str → Bool
leads store node_id = store.leader == some node_id

pub record MetadataNode (S : Type 0) : Type 0 where
  pub local_node_id : Str
  pub store : OpenraftLikeStore
  pub log : S

abbrev pub NodeError : Type 0
NodeError = OpenraftAdapterError MetadataLogError

-- The calls that change a node.
pub data Operation : Type 0 where
  set_leader_term_call : Str → ℕ → Operation
  set_leader_call : Str → Operation
  clear_leader_call : Operation
  apply_snapshot_call : Str → CoordinationSnapshot → Option ℕ → Operation
  plan_and_apply_call :
      Str
      → (PlacementInput → Result PlacementError CoordinationSnapshot)
      → PlacementInput
      → Operation

module _ {S : Type 0} where
  unfoldable pub set_leader_term : MetadataNode S → Str → ℕ → MetadataNode S
  set_leader_term node node_id term = record node {
    store = record node.store {
      current_term = if leb node.store.current_term term then term else node.store.current_term;
      leader = some node_id;
    };
  }

  unfoldable pub current_term : MetadataNode S → ℕ
  current_term node = node.store.current_term

  unfoldable pub set_leader : MetadataNode S → Str → MetadataNode S
  unfolding set_leader_term current_term
  set_leader node leader_id = set_leader_term node leader_id (current_term node)

  unfoldable pub clear_leader : MetadataNode S → MetadataNode S
  clear_leader node = record node { store = record node.store { leader = none } }

  unfoldable pub is_leader : MetadataNode S → Bool
  is_leader node = node.store.leader == some node.local_node_id

module _ {S : Type 0} (log : MetadataLog S) where
  -- `OpenraftLikeStore::new`
  unfoldable pub new_store : S → CoordinationSnapshot → Result NodeError OpenraftLikeStore
  new_store s initial_snapshot = elim (log.latest_entry s) [
    | err e ↦ err (storage e)
    | ok none ↦ ok (record { current_term = 1; leader = none; snapshot = initial_snapshot })
    | ok (some entry) ↦
        ok (record { current_term = entry.term; leader = none; snapshot = entry.snapshot })
  ]

  -- `MetadataNode::new`
  unfoldable pub new : Str → CoordinationSnapshot → S → Result NodeError (MetadataNode S)
  unfolding new_store
  new local_node_id initial_snapshot s = elim (new_store s initial_snapshot) [
    | err e ↦ err e
    | ok store ↦ ok (record { local_node_id = local_node_id; store = store; log = s })
  ]

  -- `let entry = log.append_entry(…)?; self.snapshot = snapshot; Ok(entry)`
  abbrev append_then_publish :
      OpenraftLikeStore
      → S
      → CoordinationSnapshot
      → ℕ
      → Result NodeError MetadataLogEntry × (OpenraftLikeStore × S)
  append_then_publish store s snapshot term =
      let (result, after) = log.append_entry s term snapshot in
      elim result [
        | err e ↦ (err (storage e), (store, after))
        | ok entry ↦ (ok entry, (record store { snapshot = snapshot }, after))
      ]

  unfoldable pub append_snapshot :
      OpenraftLikeStore
      → S
      → Str
      → CoordinationSnapshot
      → ℕ
      → Result NodeError MetadataLogEntry × (OpenraftLikeStore × S)
  append_snapshot store s proposer snapshot term =
      let newer = record store { current_term = term } in
      if not (leads store proposer)
      then (err not_leader, (store, s))
      else if ltb term store.current_term
      then (err stale_term, (store, s))
      else if ltb snapshot.generation store.snapshot.generation
      then (err stale_generation, (store, s))
      else if ltb store.current_term term
      then (let (result, after) = log.clear s in
          elim result [
            | err e ↦ (err (storage e), (newer, after))
            | ok _ ↦ append_then_publish newer after snapshot term
          ])
      else append_then_publish store s snapshot term

  unfoldable pub apply_snapshot :
      MetadataNode S
      → Str
      → CoordinationSnapshot
      → Option ℕ
      → Result NodeError (Unit {0}) × MetadataNode S
  unfolding append_snapshot current_term
  apply_snapshot node proposer snapshot term =
      let at : ℕ = elim term [ none ↦ current_term node | some t ↦ t ] in
      let (result, (store, s)) = append_snapshot node.store node.log proposer snapshot at in
      (elim result [ err e ↦ err e | ok entry ↦ ok tt ], record node { store = store; log = s })

  unfoldable pub plan_and_apply :
      MetadataNode S
      → Str
      → (PlacementInput → Result PlacementError CoordinationSnapshot)
      → PlacementInput
      → Result NodeError CoordinationSnapshot × MetadataNode S
  unfolding apply_snapshot
  plan_and_apply node proposer plan input = elim (plan input) [
    | err e ↦ (err (planner e), node)
    | ok planned ↦
        let (result, after) = apply_snapshot node proposer planned none in
        (elim result [ err e ↦ err e | ok _ ↦ ok planned ], after)
  ]

  log_len : MetadataNode S → ℕ
  log_len node = elim (log.entries node.log) [ err e ↦ 0 | ok entries ↦ length entries ]

  last_index : MetadataNode S → ℕ
  last_index node = elim (log.latest_entry node.log) [ ok (some entry) ↦ entry.index | _ ↦ 0 ]

  last_term : MetadataNode S → ℕ
  last_term node = elim (log.latest_entry node.log) [ ok (some entry) ↦ entry.term | _ ↦ 0 ]

  -- One call, the result left out.
  pub step : Operation → MetadataNode S → MetadataNode S
  unfolding set_leader_term set_leader clear_leader apply_snapshot plan_and_apply
  step (set_leader_term_call node_id term) node = set_leader_term node node_id term
  step (set_leader_call leader_id) node = set_leader node leader_id
  step clear_leader_call node = clear_leader node
  step (apply_snapshot_call proposer snapshot term) node =
      (apply_snapshot node proposer snapshot term).1
  step (plan_and_apply_call proposer plan input) node = (plan_and_apply node proposer plan input).1

  pub run : List Operation → MetadataNode S → MetadataNode S
  unfolding step
  run [] node = node
  run (call ∷ calls) node = run calls (step call node)
