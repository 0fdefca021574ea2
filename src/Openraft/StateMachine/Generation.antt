-- ===== src/Openraft/StateMachine/Generation.antt =====
-- Rejections, the generation counter, and the compare-and-set that guarded commands give.
use ganglion.Prelude.{
  ℕ, ◌+◌, ◌≤◌, ◌<◌, Option, some, none, Bool, true, false, ◌≡◌, ◌≢◌, ◌∙◌, sym, arith, if◌then◌else◌,
  u64_max,
}
use ganglion.Core.Model.{CoordinationSnapshot}
use ganglion.Openraft.Command.{
  MetadataRaftCommand, apply_snapshot, apply_snapshot_guarded, update_partition_guarded,
  compare_and_set_attribute_guarded, MetadataRejection, generation_mismatch,
}
use ganglion.Openraft.StateMachine.{apply_command}

-- A rejected command changes nothing and publishes nothing.
apply_command-rejected :
    (s : CoordinationSnapshot) (c : MetadataRaftCommand) (r : MetadataRejection)
    → (apply_command s c).rejection ≡ some r
    → ((apply_command s c).state ≡ s) × ((apply_command s c).changed ≡ false)
unfolding apply_command
apply_command-rejected s (apply_snapshot snapshot) r h = ground arith
apply_command-rejected s _ r h = ground arith

-- The snapshots that a command carries whole.
abbrev pub replaces : MetadataRaftCommand → Bool
replaces (apply_snapshot snapshot) = true
replaces (apply_snapshot_guarded expected snapshot) = true
replaces _ = false

-- A command that does not replace the snapshot, below the maximal generation of a u64, advances
-- the generation by one when it publishes and leaves it alone otherwise.
pub generation-apply_command :
    (s : CoordinationSnapshot) (c : MetadataRaftCommand)
    → replaces c ≡ false
    → s.generation < u64_max
    → (apply_command s c).state.generation
      ≡ s.generation + (if (apply_command s c).changed then 1 else 0)
unfolding apply_command
generation-apply_command s (apply_snapshot snapshot) r h = cc
generation-apply_command s _ r h = ground arith

-- No command lowers a generation that is below the maximum of a u64.
generation-le-apply_command :
    (s : CoordinationSnapshot) (c : MetadataRaftCommand)
    → s.generation < u64_max
    → s.generation ≤ (apply_command s c).state.generation
unfolding apply_command
generation-le-apply_command s (apply_snapshot snapshot) h = ground arith
generation-le-apply_command s _ h = ground arith

-- The generation that a guarded command expects.
abbrev pub expected_generation : MetadataRaftCommand → Option ℕ
expected_generation (apply_snapshot_guarded expected snapshot) = some expected
expected_generation (update_partition_guarded expected assignment attributes) = some expected
expected_generation (compare_and_set_attribute_guarded expected key old new) = some expected
expected_generation _ = none

-- A guarded command whose expected generation is not the actual one is rejected with both.
guarded_mismatch :
    (s : CoordinationSnapshot) (c : MetadataRaftCommand) (g : ℕ)
    → expected_generation c ≡ some g
    → s.generation ≢ g
    → (apply_command s c).rejection ≡ some (generation_mismatch g s.generation)
unfolding apply_command
guarded_mismatch s (apply_snapshot snapshot) g e n = cc
guarded_mismatch s _ g e n = ground arith

guarded_accepted :
    (s : CoordinationSnapshot) (c : MetadataRaftCommand) (g : ℕ)
    → expected_generation c ≡ some g
    → (apply_command s c).rejection ≡ none
    → s.generation ≡ g
unfolding apply_command
guarded_accepted s (apply_snapshot snapshot) g e n = cc
guarded_accepted s _ g e n = ground arith

-- Of two guarded commands that expect the same generation, the second is rejected with the
-- actual generation, and changes nothing, when the first was accepted and changed the
-- generation.
pub guarded_race :
    (s : CoordinationSnapshot) (c d : MetadataRaftCommand) (g : ℕ)
    → expected_generation c ≡ some g
    → expected_generation d ≡ some g
    → (apply_command s c).rejection ≡ none
    → (apply_command s c).state.generation ≢ s.generation
    → let s' = (apply_command s c).state in
      ((apply_command s' d).rejection ≡ some (generation_mismatch g s'.generation))
      × ((apply_command s' d).state ≡ s')
guarded_race s c d g ec ed acc moved =
    let s' = (apply_command s c).state in
    let lost = guarded_mismatch s' d g ed (λ p. moved (p ∙ sym (guarded_accepted s c g ec acc))) in
    (lost, (apply_command-rejected s' d _ lost).0)
