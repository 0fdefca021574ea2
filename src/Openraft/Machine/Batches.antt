-- ===== src/Openraft/Machine/Batches.antt =====
-- Replies of a batch, and batches that are split.
use ganglion.Prelude.{suc, Option, some, List, [], ◌∷◌, ◌++◌, ◌≡◌, refl, arith, length, ◌||◌, ap}
use ganglion.Openraft.Command.{LogId, Entry, EntryPayload, blank, normal, membership}
use ganglion.Openraft.Machine.{
  StateMachineInner, GanglionStateMachine, apply_payload, apply_entries, apply,
}

module _ {L M S : Type 0} (stored_membership : Option (LogId L) → M → S) where
  apply_entries-append :
      (inner : StateMachineInner L S) (xs ys : List (Entry L M))
      → let (mid, replies, changed) = apply_entries stored_membership inner xs in
        let (last, more, later) = apply_entries stored_membership mid ys in
        apply_entries stored_membership inner (xs ++ ys) ≡ (last, replies ++ more, changed || later)
  unfolding apply_entries
  apply_entries-append inner [] ys = refl
  apply_entries-append inner (x ∷ xs) ys =
      let next = (apply_payload stored_membership inner x.log_id x.payload).0 in
      ground (arith, apply_entries-append next xs ys)

  -- One batch or two: the machine ends in the same committed state, membership and last applied
  -- log id, and the replies are those of the two batches in order.
  apply-append :
      (machine : GanglionStateMachine L S) (xs ys : List (Entry L M))
      → let (mid, replies) = apply stored_membership machine xs in
        let (last, more) = apply stored_membership mid ys in
        let (whole, all) = apply stored_membership machine (xs ++ ys) in
        (whole.inner ≡ last.inner) × (all ≡ replies ++ more)
  unfolding apply
  apply-append machine xs ys = ground (arith, apply_entries-append machine.inner xs ys)

  length-apply_entries :
      (inner : StateMachineInner L S) (entries : List (Entry L M))
      → length (apply_entries stored_membership inner entries).1 ≡ length entries
  unfolding apply_entries
  length-apply_entries inner [] = refl
  length-apply_entries inner (x ∷ xs) =
      ap suc (length-apply_entries (apply_payload stored_membership inner x.log_id x.payload).0 xs)

  pub last_applied-apply_payload :
      (inner : StateMachineInner L S) (log_id : LogId L) (payload : EntryPayload M)
      → (apply_payload stored_membership inner log_id payload).0.last_applied ≡ some log_id
  unfolding apply_payload
  last_applied-apply_payload inner log_id blank = refl
  last_applied-apply_payload inner log_id (normal command) = refl
  last_applied-apply_payload inner log_id (membership m) = refl

  last_applied-apply_entries :
      (inner : StateMachineInner L S) (xs : List (Entry L M)) (entry : Entry L M)
      → (apply_entries stored_membership inner (xs ++ entry ∷ [])).0.last_applied
        ≡ some entry.log_id
  unfolding apply_entries
  last_applied-apply_entries inner [] entry =
      last_applied-apply_payload inner entry.log_id entry.payload
  last_applied-apply_entries inner (x ∷ xs) entry =
      last_applied-apply_entries (apply_payload stored_membership inner x.log_id x.payload).0 xs
        entry

  -- There is one reply for each entry, and the last entry's log id is the one applied last.
  apply_replies :
      (machine : GanglionStateMachine L S) (xs : List (Entry L M)) (entry : Entry L M)
      → (length (apply stored_membership machine (xs ++ entry ∷ [])).1 ≡ length (xs ++ entry ∷ []))
        × ((apply stored_membership machine (xs ++ entry ∷ [])).0.inner.last_applied
            ≡ some entry.log_id)
  unfolding apply
  apply_replies machine xs entry = (
    length-apply_entries machine.inner (xs ++ entry ∷ []),
    last_applied-apply_entries machine.inner xs entry,
  )
