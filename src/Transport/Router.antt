-- ===== src/Transport/Router.antt =====
-- `InProcessRouter` and `InProcessConnection` of
-- `crates/ganglion-openraft/src/openraft_runtime/network.rs`. A raft handle is any value, and what
-- a handle answers is an argument.
use ganglion.Prelude.{ℕ, Option, some, none, ◌≡◌, ◌≢◌, ap, Result, ok, err, nat_ord}
use ganglion.BTreeMap.{BTreeMap, get, insert, remove}
use ganglion.BTreeMap.Sorted.{get-insert_self, get-insert_ne, get-remove_self, get-remove_ne}

-- `RPCError`: the target is not registered, or it answered with an error of its own.
pub data RouterError (E : Type 0) : Type 0 where
  unknown_target : ℕ → RouterError E
  remote : ℕ → E → RouterError E

module _ {H : Type 0} where
  unfoldable pub register : BTreeMap ℕ H → ℕ → H → BTreeMap ℕ H
  register targets id raft = insert id raft targets

  unfoldable deregister : BTreeMap ℕ H → ℕ → BTreeMap ℕ H
  deregister targets id = remove id targets

  unfoldable pub lookup : BTreeMap ℕ H → ℕ → Option H
  lookup targets id = get id targets

  -- The call on the handle, if there is one.
  abbrev pub answered :
      {Q E A : Type 0} → (H → Q → Result E A) → ℕ → Q → Option H → Result (RouterError E) A
  answered call target rpc none = err (unknown_target target)
  answered call target rpc (some raft) = elim (call raft rpc) [
    | err e ↦ err (remote target e)
    | ok response ↦ ok response
  ]

  -- `append_entries`, `install_snapshot` and `vote` of a connection to a target: `target_raft` and
  -- the call on the handle.
  unfoldable routed :
      {Q E A : Type 0} → (H → Q → Result E A) → BTreeMap ℕ H → ℕ → Q → Result (RouterError E) A
  unfolding lookup
  routed call targets target rpc = answered call target rpc (lookup targets target)

  -- A call reaches the handle that was registered last under the target's id, so a node that was
  -- replaced is reached at once; a target that was deregistered is unreachable; and neither is seen
  -- by calls to other targets.
  routed-register :
      {Q E A : Type 0} (call : H → Q → Result E A) (targets : BTreeMap ℕ H) (id other : ℕ)
      (raft : H) (rpc : Q)
      → other ≢ id
      → ((routed call (register targets id raft) id rpc
            ≡ (elim (call raft rpc) [ err e ↦ err (remote id e) | ok response ↦ ok response ]))
          × (routed call (deregister targets id) id rpc ≡ err (unknown_target id)))
        × ((routed call (register targets id raft) other rpc ≡ routed call targets other rpc)
            × (routed call (deregister targets id) other rpc ≡ routed call targets other rpc))
  unfolding routed lookup register deregister
  routed-register call targets id other raft rpc n = (
    (
      ap (answered call id rpc) (get-insert_self id raft targets),
      ap (answered call id rpc) (get-remove_self id targets),
    ),
    (
      ap (answered call other rpc) (get-insert_ne id other raft targets n),
      ap (answered call other rpc) (get-remove_ne id other targets n),
    ),
  )
