-- ===== src/Openraft/MemoryLog.antt =====
-- `GanglionLogStore` of `crates/ganglion-openraft/src/openraft_runtime/storage.rs`: the log store
-- in memory. openraft's vote, leader id and membership are type parameters.
use ganglion.Prelude.{
  ℕ, Option, some, none, List, [], ◌∷◌, last?, ltb, if◌then◌else◌, wrapping_add, nat_ord,
}
use ganglion.BTreeMap.{BTreeMap, insert, below, split_off, values}
use ganglion.Openraft.Command.{LogId, Entry}
use ganglion.Openraft.Wal.{LogState}

pub record LogStoreInner (V L M : Type 0) : Type 0 where
  pub vote : Option V
  pub log : BTreeMap ℕ (Entry L M)
  pub last_purged_log_id : Option (LogId L)

module _ {V L M : Type 0} where
  -- `get_log_state`
  pub get_log_state : LogStoreInner V L M → LogState L
  get_log_state inner = record {
    last_purged_log_id = inner.last_purged_log_id;
    last_log_id = elim (last? (values inner.log)) [
      | none ↦ inner.last_purged_log_id
      | some e ↦ some e.log_id
    ];
  }

  unfoldable pub save_vote : LogStoreInner V L M → V → LogStoreInner V L M
  save_vote inner vote = record inner { vote = some vote }

  unfoldable pub append : LogStoreInner V L M → List (Entry L M) → LogStoreInner V L M
  append inner [] = inner
  append inner (entry ∷ entries) =
      append (record inner { log = insert entry.log_id.index entry inner.log }) entries

  unfoldable pub truncate : LogStoreInner V L M → LogId L → LogStoreInner V L M
  truncate inner log_id = record inner { log = below log_id.index inner.log }

  unfoldable pub purge : LogStoreInner V L M → LogId L → LogStoreInner V L M
  purge inner log_id = record inner {
    last_purged_log_id = elim inner.last_purged_log_id [
      | none ↦ some log_id
      | some purged ↦ if ltb purged.index log_id.index then some log_id else some purged
    ];
    log = split_off (wrapping_add log_id.index 1) inner.log;
  }
