-- ===== src/Openraft/StateMachine/Tests.antt =====
-- The results of the commands at sample data.
use ganglion.Prelude.{
  ℕ, ◌+◌, ◌≤◌, ◌<◌, Option, some, none, true, false, List, [], ◌∷◌, ◌++◌, map, ◌≡◌, ◌≢◌, ◌⊎◌, refl,
  arith, ok, err, length, if◌then◌else◌,
}
use ganglion.Core.Model.{Str, CoordinationSnapshot, default_snapshot, NodeInfo}
use ganglion.Openraft.Command.{
  MetadataRaftCommand, register_node, set_attribute, compare_and_set_attribute,
  compare_and_set_attribute_guarded, generation_mismatch, attribute_mismatch,
}
use ganglion.Openraft.StateMachine.{apply_command}
use ganglion.Openraft.StateMachine.Generation.{generation-apply_command, guarded_race}
use ganglion.Openraft.StateMachine.Topology.{IsOrdered}

abbrev key : Str
key = 107 ∷ []

abbrev node : NodeInfo
node = record { node_id = 97 ∷ []; endpoint = 49 ∷ []; admin_endpoint = none; labels = [] }

abbrev relabelled : NodeInfo
relabelled = record node { labels = (key, key) ∷ [] }

abbrev state : CoordinationSnapshot
state = record default_snapshot {
  nodes = (97 ∷ [], node) ∷ [];
  attributes = (key, 49 ∷ []) ∷ [];
  generation = 4;
}

abbrev claim : Str → MetadataRaftCommand
claim value = compare_and_set_attribute_guarded 4 key (some (49 ∷ [])) value

abbrev stale_claim : MetadataRaftCommand
stale_claim = compare_and_set_attribute key none (50 ∷ [])

first_claim_accepted : (apply_command state (claim (50 ∷ []))).rejection ≡ none
unfolding apply_command ganglion.BTreeMap.get ganglion.Prelude.same
first_claim_accepted = refl

first_claim_moves : (apply_command state (claim (50 ∷ []))).state.generation ≢ state.generation
unfolding apply_command ganglion.BTreeMap.get ganglion.Prelude.same
first_claim_moves = λ p. omega arith

guarded_race_example :
    ((apply_command (apply_command state (claim (50 ∷ []))).state (claim (51 ∷ []))).rejection
      ≡ some (generation_mismatch 4 (apply_command state (claim (50 ∷ []))).state.generation))
    × ((apply_command (apply_command state (claim (50 ∷ []))).state (claim (51 ∷ []))).state
        ≡ (apply_command state (claim (50 ∷ []))).state)
guarded_race_example =
    guarded_race state (claim (50 ∷ [])) (claim (51 ∷ [])) 4 refl refl first_claim_accepted
      first_claim_moves

stale_claim_rejected :
    (apply_command state stale_claim).rejection ≡ some (attribute_mismatch key (some (49 ∷ [])))
unfolding apply_command ganglion.BTreeMap.get ganglion.Prelude.same
stale_claim_rejected = refl

generation-apply_command_example :
    (apply_command state (set_attribute key (50 ∷ []))).state.generation
    ≡ 4 + (if (apply_command state (set_attribute key (50 ∷ []))).changed then 1 else 0)
generation-apply_command_example =
    generation-apply_command state (set_attribute key (50 ∷ [])) refl (omega arith)

state-IsOrdered : IsOrdered state
state-IsOrdered = record {
  nodes = (tt, tt);
  assignments = tt;
  resources = tt;
  attributes = (tt, tt);
}

relabel_silent : (apply_command state (register_node relabelled)).changed ≡ false
unfolding apply_command ganglion.BTreeMap.get ganglion.Prelude.same
relabel_silent = refl
