-- ===== src/Openraft/Machine/Published.antt =====
-- What the watch channel holds, compared with the committed state.
use ganglion.Prelude.{
  Option, false, List, [], ◌∷◌, ◌≡◌, ◌∙◌, refl, arith, All, Bool-cases, inl, inr, sym,
}
use ganglion.Openraft.Command.{LogId, Entry, EntryPayload, blank, normal, membership}
use ganglion.Openraft.StateMachine.Topology.{
  IsOrdered, CarriesOrdered, topology, apply_command-IsOrdered, topology-apply_command,
}
use ganglion.Openraft.Machine.{
  StateMachineInner, GanglionStateMachine, apply_payload, apply_entries, apply,
}

abbrev PayloadOrdered : {M : Type 0} → EntryPayload M → Type 0
PayloadOrdered blank = Unit
PayloadOrdered (normal command) = CarriesOrdered command
PayloadOrdered (membership m) = Unit

-- The committed state is made of ordered maps, and the published one agrees with it but for the
-- node labels.
pub record IsPublished {L S : Type 0} (machine : GanglionStateMachine L S) : Type 0 where
  pub ordered : IsOrdered machine.inner.state
  pub view : topology machine.published ≡ topology machine.inner.state

module _ {L M S : Type 0} (stored_membership : Option (LogId L) → M → S) where
  apply_payload-keeps :
      (inner : StateMachineInner L S) (log_id : LogId L) (payload : EntryPayload M)
      → IsOrdered inner.state
      → PayloadOrdered payload
      → IsOrdered (apply_payload stored_membership inner log_id payload).0.state
        × ((apply_payload stored_membership inner log_id payload).2 ≡ false
            → topology (apply_payload stored_membership inner log_id payload).0.state
              ≡ topology inner.state)
  unfolding apply_payload
  apply_payload-keeps inner log_id blank o c = (o, λ _. refl)
  apply_payload-keeps inner log_id (normal command) o c = (
    apply_command-IsOrdered inner.state command o c,
    topology-apply_command inner.state command o,
  )
  apply_payload-keeps inner log_id (membership m) o c = (o, λ _. refl)

  apply_entries-keeps :
      (inner : StateMachineInner L S) (entries : List (Entry L M))
      → IsOrdered inner.state
      → All (λ (e : Entry L M). PayloadOrdered e.payload) entries
      → IsOrdered (apply_entries stored_membership inner entries).0.state
        × ((apply_entries stored_membership inner entries).2 ≡ false
            → topology (apply_entries stored_membership inner entries).0.state
              ≡ topology inner.state)
  unfolding apply_entries
  apply_entries-keeps inner [] o c = (o, λ _. refl)
  apply_entries-keeps inner (entry ∷ entries) o c =
      let next = (apply_payload stored_membership inner entry.log_id entry.payload).0 in
      let (first, quiet) = apply_payload-keeps inner entry.log_id entry.payload o c.0 in
      let (last, silent) = apply_entries-keeps next entries first c.1 in
      (last, λ h. silent (ground arith) ∙ quiet (ground arith))

  -- If the watch channel holds the committed state up to node labels before a batch, and the
  -- maps of the state and of the snapshots that the batch carries are in key order, it does so
  -- after the batch.
  pub apply-IsPublished :
      (machine : GanglionStateMachine L S) (entries : List (Entry L M))
      → IsPublished machine
      → All (λ (e : Entry L M). PayloadOrdered e.payload) entries
      → IsPublished (apply stored_membership machine entries).0
  unfolding apply
  apply-IsPublished machine entries p c =
      let (ordered, quiet) = apply_entries-keeps machine.inner entries p.ordered c in
      record {
        ordered = ordered;
        view = elim (Bool-cases (apply_entries stored_membership machine.inner entries).2) [
          | inl changed ↦ rw changed refl
          | inr silent ↦ rw silent (p.view ∙ sym (quiet silent))
        ];
      }
