-- ===== src/Adapter/Error.antt =====
-- `OpenraftAdapterError` of `crates/ganglion-openraft/src/lib.rs`. The payload of `Storage` is the
-- text of another error: here its cause, of a type that the part at hand has.
use ganglion.Prelude.{ℕ, Option}
use ganglion.Core.Model.{Str}
use ganglion.Core.Placement.{PlacementError}

-- What a `Config` error quotes; openraft's text, where it is from there.
pub data ConfigError : Type 0 where
  invalid_tail_limit invalid_profile : Str → ConfigError
  unreadable_variable leader_vanished : ConfigError
  raft_text : Str → ConfigError

pub data OpenraftAdapterError (E : Type 0) : Type 0 where
  not_leader stale_generation poisoned_state stale_term : OpenraftAdapterError E
  generation_mismatch : ℕ → ℕ → OpenraftAdapterError E
  attribute_mismatch : Str → Option Str → OpenraftAdapterError E
  planner : PlacementError → OpenraftAdapterError E
  config : ConfigError → OpenraftAdapterError E
  storage : E → OpenraftAdapterError E
