-- ===== src/RaftNode/Replicated.antt =====
-- The writes of a raft node against the state machine that applies the log.
use ganglion.Prelude.{
  Option, some, none, List, [], ◌∷◌, ◌++◌, ◌≡◌, refl, sym, ap, ◌∙◌, arith, last?, ok, err,
}
use ganglion.Core.Model.{CoordinationSnapshot}
use ganglion.Openraft.Command.{
  MetadataRaftCommand, MetadataRaftResponse, LogId, EntryPayload, blank, normal, membership, Entry,
}
use ganglion.Openraft.StateMachine.{apply_command}
use ganglion.Openraft.Machine.{
  StateMachineInner, GanglionStateMachine, apply_payload, apply_entries, apply,
}
use ganglion.RaftNode.{apply_all, response_to, submit_command, committed, rejection_error}

-- The commands among the entries of a log.
abbrev command_in : {M : Type 0} → EntryPayload M → List MetadataRaftCommand
command_in (normal command) = command ∷ []
command_in blank = []
command_in (membership m) = []

abbrev pub commands_in : {L M : Type 0} → List (Entry L M) → List MetadataRaftCommand
commands_in [] = []
commands_in (entry ∷ entries) = command_in entry.payload ++ commands_in entries

last?-cons : {A : Type 0} (x y : A) (ys : List A) → last? ys ≡ some y → last? (x ∷ ys) ≡ some y
last?-cons x y [] h = absurd (ground arith)
last?-cons x y (z ∷ zs) h = h

apply_all-append :
    (xs ys : List MetadataRaftCommand) (s : CoordinationSnapshot)
    → apply_all s (xs ++ ys) ≡ apply_all (apply_all s xs) ys
unfolding apply_all
apply_all-append [] ys s = refl
apply_all-append (x ∷ xs) ys s = apply_all-append xs ys (apply_command s x).state

module _ {L M S : Type 0} (stored_membership : Option (LogId L) → M → S) where
  state-apply_payload :
      (inner : StateMachineInner L S) (id : LogId L) (payload : EntryPayload M)
      → (apply_payload stored_membership inner id payload).0.state
        ≡ apply_all inner.state (command_in payload)
  unfolding apply_payload apply_all
  state-apply_payload inner id blank = refl
  state-apply_payload inner id (normal command) = refl
  state-apply_payload inner id (membership m) = refl

  -- The state and the last reply after a batch that ends with a command.
  apply_entries-command :
      (entries : List (Entry L M)) (inner : StateMachineInner L S) (id : LogId L)
      (command : MetadataRaftCommand)
      → let run =
          apply_entries stored_membership inner
            (entries ++ record { log_id = id; payload = normal command } ∷ []) in
        let before = apply_all inner.state (commands_in entries) in
        (last? run.1 ≡ some (response_to before command))
        × (run.0.state ≡ (apply_command before command).state)
  unfolding apply_entries apply_payload apply_all
  apply_entries-command [] inner id command = (refl, refl)
  apply_entries-command (entry ∷ entries) inner id command =
      let (next, reply, changed) =
        apply_payload stored_membership inner entry.log_id entry.payload in
      let (replied, left) = apply_entries-command entries next id command in
      let states =
        ap (λ s. apply_all s (commands_in entries))
          (state-apply_payload inner entry.log_id entry.payload)
        ∙ sym (apply_all-append (command_in entry.payload) (commands_in entries) inner.state) in
      (
        last?-cons reply (response_to (apply_all next.state (commands_in entries)) command)
              (apply_entries stored_membership next
                (entries ++ record { log_id = id; payload = normal command } ∷ [])).1
              replied
            ∙ ap (λ s. some (response_to s command)) states,
        left ∙ ap (λ s. (apply_command s command).state) states,
      )

  -- What a write by a raft node gives is what the state machine does when it applies the command
  -- at the end of a batch: the committed state after the batch is that which the write leaves, and
  -- the write succeeds with the last reply of the batch, or fails with the error for the rejection
  -- in it, where the write is made to the state after the commands before it in the batch.
  pub submit_command-apply :
      (machine : GanglionStateMachine L S) (entries : List (Entry L M)) (id : LogId L)
      (command : MetadataRaftCommand)
      → let (after, replies) =
          apply stored_membership machine
            (entries ++ record { log_id = id; payload = normal command } ∷ []) in
        let (result, state) =
          submit_command (apply_all machine.inner.state (commands_in entries)) command committed in
        (after.inner.state ≡ state)
        × ((response : MetadataRaftResponse) × ((last? replies ≡ some response)
              × (result ≡ (elim response.rejection [
                | none ↦ ok response
                | some rejection ↦ err (rejection_error rejection)
              ]))))
  unfolding apply submit_command
  submit_command-apply machine entries id command =
      let (replied, left) = apply_entries-command entries machine.inner id command in
      (
        left,
        (
          response_to (apply_all machine.inner.state (commands_in entries)) command,
          (replied, refl),
        ),
      )
