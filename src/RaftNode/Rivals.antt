-- ===== src/RaftNode/Rivals.antt =====
-- The commands that others get committed while an attempt is under way.
use ganglion.Prelude.{
  ◌+◌, ◌≤◌, ◌<◌, false, List, [], ◌∷◌, ◌≡◌, ◌∙◌, refl, arith, All, length, u64_max, Bool-cases, inl,
  inr,
}
use ganglion.Core.Model.{CoordinationSnapshot}
use ganglion.Openraft.Command.{MetadataRaftCommand}
use ganglion.Openraft.StateMachine.{apply_command}
use ganglion.Openraft.StateMachine.Generation.{replaces, generation-apply_command}
use ganglion.Openraft.StateMachine.Topology.{
  IsOrdered, CarriesOrdered, topology, apply_command-IsOrdered, topology-apply_command,
}
use ganglion.RaftNode.{apply_all}

pub apply_all-IsOrdered :
    (commands : List MetadataRaftCommand) (s : CoordinationSnapshot)
    → All CarriesOrdered commands
    → IsOrdered s
    → IsOrdered (apply_all s commands)
unfolding apply_all
apply_all-IsOrdered [] s h o = o
apply_all-IsOrdered (c ∷ commands) s h o =
    apply_all-IsOrdered commands (apply_command s c).state h.1 (apply_command-IsOrdered s c o h.0)

-- A command that changes the snapshot in place, rather than replace it.
abbrev pub IsMerge : MetadataRaftCommand → Type 0
IsMerge c = (replaces c ≡ false) × CarriesOrdered c

generation-apply_all :
    (commands : List MetadataRaftCommand) (s : CoordinationSnapshot)
    → All IsMerge commands
    → s.generation + length commands < u64_max
    → (s.generation ≤ (apply_all s commands).generation)
unfolding apply_all
generation-apply_all [] s h b = omega arith
generation-apply_all (c ∷ commands) s h b =
    let step = generation-apply_command s c h.0.0 (omega arith) in
    let rest = generation-apply_all commands (apply_command s c).state h.1 in ground arith

-- Merges that leave the generation where it was leave all but the node labels as it was: the same
-- nodes at the same endpoints, assignments, resources and attributes. The maps are in key order
-- and the generation stays below the maximum of a u64.
pub topology-apply_all :
    (commands : List MetadataRaftCommand) (s : CoordinationSnapshot)
    → All IsMerge commands
    → IsOrdered s
    → s.generation + length commands < u64_max
    → (apply_all s commands).generation ≡ s.generation
    → topology (apply_all s commands) ≡ topology s
unfolding apply_all
topology-apply_all [] s h o b g = refl
topology-apply_all (c ∷ commands) s h o b g =
    let s1 = (apply_command s c).state in
    let step = generation-apply_command s c h.0.0 (omega arith) in
    elim (Bool-cases (apply_command s c).changed) [
      | inl changed ↦
          let rest = generation-apply_all commands s1 h.1 (ground arith) in absurd (ground arith)
      | inr silent ↦
          topology-apply_all commands s1 h.1 (apply_command-IsOrdered s c o h.0.1) (ground arith)
            (ground arith)
          ∙ topology-apply_command s c o silent
    ]
