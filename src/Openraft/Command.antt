-- ===== src/Openraft/Command.antt =====
-- The commands, rejections and replies of `crates/ganglion-openraft/src/openraft_runtime/mod.rs`,
-- and what the code reads of openraft's log ids and entries. The leader id inside a log id and
-- the membership type are openraft's own, so they are type parameters.
use ganglion.Prelude.{ℕ, Option, Bool}
use ganglion.BTreeMap.{BTreeMap}
use ganglion.Core.Model.{Str, ResourceIdentity, NodeInfo, PartitionAssignment, CoordinationSnapshot}

pub data MetadataRaftCommand : Type 0 where
  apply_snapshot : CoordinationSnapshot → MetadataRaftCommand
  apply_snapshot_guarded : ℕ → CoordinationSnapshot → MetadataRaftCommand
  update_partition_guarded :
      ℕ → PartitionAssignment → BTreeMap Str (Option Str) → MetadataRaftCommand
  register_node : NodeInfo → MetadataRaftCommand
  deregister_node : Str → MetadataRaftCommand
  register_resource : ResourceIdentity → MetadataRaftCommand
  register_resource_with_initial_attribute : ResourceIdentity → Str → Str → MetadataRaftCommand
  deregister_resource : ResourceIdentity → MetadataRaftCommand
  deregister_resource_with_attribute : ResourceIdentity → Str → Option Str → MetadataRaftCommand
  set_attribute : Str → Str → MetadataRaftCommand
  remove_attribute : Str → MetadataRaftCommand
  compare_and_set_attribute : Str → Option Str → Str → MetadataRaftCommand
  compare_and_set_attribute_guarded : ℕ → Str → Option Str → Str → MetadataRaftCommand
  deregister_resource_replacing_attribute :
      ResourceIdentity → Str → Option Str → Str → MetadataRaftCommand

pub data MetadataRejection : Type 0 where
  stale_generation : MetadataRejection
  generation_mismatch : ℕ → ℕ → MetadataRejection
  attribute_mismatch : Str → Option Str → MetadataRejection

pub record MetadataRaftResponse : Type 0 where
  pub accepted : Bool
  pub rejection : Option MetadataRejection
  pub snapshot : CoordinationSnapshot

pub record LogId (L : Type 0) : Type 0 where
  pub leader_id : L
  pub index : ℕ

pub data EntryPayload (M : Type 0) : Type 0 where
  blank : EntryPayload M
  normal : MetadataRaftCommand → EntryPayload M
  membership : M → EntryPayload M

pub record Entry (L M : Type 0) : Type 0 where
  pub log_id : LogId L
  pub payload : EntryPayload M
