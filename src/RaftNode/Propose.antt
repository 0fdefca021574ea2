-- ===== src/RaftNode/Propose.antt =====
-- What `plan_and_propose_guarded` commits, and when it gives up.
use ganglion.Prelude.{
  ℕ, zero, suc, ◌+◌, ◌≤◌, ◌<◌, true, false, [], ◌≡◌, ◌≢◌, ◌⊎◌, ap, ◌∙◌, arith, length, u64_max,
  Bool-cases, inl, inr,
}
use ganglion.Core.Model.{CoordinationSnapshot}
use ganglion.Openraft.Command.{MetadataRaftResponse}
use ganglion.Openraft.StateMachine.{apply_command, replace}
use ganglion.Openraft.StateMachine.Topology.{topology}
use ganglion.RaftNode.{
  WriteOutcome, committed, refused, forward_to_leader, other_write_error, map_membership_error,
  submit_command, write_snapshot_guarded, apply_all, Attempt, desired, attempt, lost_race,
  plan_and_propose_guarded,
}

write_snapshot_guarded-lost :
    (s snapshot : CoordinationSnapshot) (expected : ℕ) (write : WriteOutcome)
    → lost_race (write_snapshot_guarded s expected snapshot write).0 ≡ true
    → (s.generation ≢ expected) × ((write_snapshot_guarded s expected snapshot write).1 ≡ s)
unfolding write_snapshot_guarded submit_command apply_command replace map_membership_error
write_snapshot_guarded-lost s snapshot expected (refused (forward_to_leader l)) h = cc
write_snapshot_guarded-lost s snapshot expected (refused (other_write_error t)) h = cc
write_snapshot_guarded-lost s snapshot expected committed h = ground arith

-- An attempt that loses the race had a rival that moved the generation, and changed nothing.
lost-attempt :
    (plan : CoordinationSnapshot → CoordinationSnapshot) (s : CoordinationSnapshot) (a : Attempt)
    → lost_race (attempt plan s a).0 ≡ true
    → let read = apply_all s a.before in
      ((apply_all read a.between).generation ≢ read.generation)
      × ((attempt plan s a).1 ≡ apply_all read a.between)
unfolding attempt
lost-attempt plan s a h =
    let read = apply_all s a.before in
    write_snapshot_guarded-lost (apply_all read a.between) (desired plan read) read.generation
      a.write h

lost_race-quiet :
    (plan : CoordinationSnapshot → CoordinationSnapshot) (s : CoordinationSnapshot) (a : Attempt)
    → a.between ≡ []
    → lost_race (attempt plan s a).0 ≡ false
unfolding apply_all
lost_race-quiet plan s a quiet = elim (Bool-cases (lost_race (attempt plan s a).0)) [
  | inr final ↦ final
  | inl lost ↦
      let read = apply_all s a.before in
      absurd
        ((lost-attempt plan s a lost).0 (ap (λ rivals. (apply_all read rivals).generation) quiet))
]

-- The committed state when an attempt starts that comes after as many that lost: what the commands
-- of others made of the state at first.
abbrev pub state_before : (ℕ → Attempt) → ℕ → ℕ → CoordinationSnapshot → CoordinationSnapshot
state_before env n zero s = s
state_before env n (suc i) s =
    state_before env (n + 1) i (apply_all (apply_all s (env n).before) (env n).between)

-- What an attempt on a committed state committed: the plan of the state that it read, one generation
-- on and with its epochs stamped, in the place of the state that was committed by then, which has
-- the generation of the one that was read and, below the maximum of a u64, its topology.
abbrev pub AttemptCommits :
    (CoordinationSnapshot → CoordinationSnapshot)
    → CoordinationSnapshot
    → Attempt
    → MetadataRaftResponse
    → CoordinationSnapshot
    → Type 0
AttemptCommits plan s a response after =
    let read = apply_all s a.before in
    let replaced = apply_all read a.between in
    ((a.write ≡ committed) × ((after ≡ desired plan read) × (response.snapshot ≡ after)))
    × ((replaced.generation ≡ read.generation)
        × ((u64_max ≤ read.generation + length a.between) ⊎ (topology replaced ≡ topology read)))

-- What a call committed: one of its attempts did, after those before it lost the race, on the state
-- that the commands of others had made by then of the state at first.
abbrev pub Commits :
    (CoordinationSnapshot → CoordinationSnapshot)
    → (ℕ → Attempt)
    → ℕ
    → ℕ
    → CoordinationSnapshot
    → MetadataRaftResponse
    → CoordinationSnapshot
    → Type 0
Commits plan env retries n s response after =
    (i : ℕ) × (i ≤ retries)
    × ((j : ℕ) → j < i → lost_race (attempt plan (state_before env n j s) (env (n + j))).0 ≡ true)
    × AttemptCommits plan (state_before env n i s) (env (n + i)) response after

module _ (plan : CoordinationSnapshot → CoordinationSnapshot) (env : ℕ → Attempt) where
  at_index : (i j : ℕ) → i ≡ j → (env i).between ≡ (env j).between
  at_index i j h = ap (λ i. (env i).between) h

  -- The call reports a lost race only after every one of its attempts, as many as the retries and
  -- one more, lost to a rival: where one of them has no command of others between its read and
  -- its write, the result is not a generation mismatch.
  pub lost_race-plan_and_propose_guarded :
      (retries n k : ℕ) (s : CoordinationSnapshot)
      → k ≤ retries
      → (env (n + k)).between ≡ []
      → lost_race (plan_and_propose_guarded plan env retries n s).0 ≡ false
  unfolding plan_and_propose_guarded
  lost_race-plan_and_propose_guarded zero n k s h quiet =
      lost_race-quiet plan s (env n) (at_index n (n + k) (omega arith) ∙ quiet)
  lost_race-plan_and_propose_guarded (suc retries) n zero s h quiet =
      let final = lost_race-quiet plan s (env n) (at_index n (n + 0) (omega arith) ∙ quiet) in
      ground arith
  lost_race-plan_and_propose_guarded (suc retries) n (suc k) s h quiet =
      let later =
        lost_race-plan_and_propose_guarded retries (n + 1) k (attempt plan s (env n)).1
          (omega arith) (at_index (n + 1 + k) (n + suc k) (omega arith) ∙ quiet) in
      ground arith
