-- ===== src/Openraft/Wal.antt =====
-- The WAL records of `crates/ganglion-openraft/src/openraft_runtime/durable.rs` and the log state
-- that they fold into. openraft's vote, leader id and membership are type parameters.
pub mod Compaction
use ganglion.Prelude.{
  ℕ, Option, some, none, Bool, true, false, List, [], ◌∷◌, ◌++◌, map, ltb, if◌then◌else◌,
  wrapping_add, last?, nat_ord, length, ◌+◌,
}
use ganglion.BTreeMap.{BTreeMap, insert, below, split_off, values}
use ganglion.Openraft.Command.{LogId, Entry}

pub data WalRecord (V L M : Type 0) : Type 0 where
  vote : V → WalRecord V L M
  entry : Entry L M → WalRecord V L M
  truncate : ℕ → WalRecord V L M
  purge : LogId L → WalRecord V L M

pub record DurableState (V L M : Type 0) : Type 0 where
  pub vote : Option V
  pub log : BTreeMap ℕ (Entry L M)
  pub last_purged_log_id : Option (LogId L)

-- `LogState` of `get_log_state`.
pub record LogState (L : Type 0) : Type 0 where
  pub last_purged_log_id : Option (LogId L)
  pub last_log_id : Option (LogId L)

-- The guard that keeps purge points from moving backwards.
unfoldable pub advance_purge : {L : Type 0} → Option (LogId L) → LogId L → Option (LogId L)
advance_purge none upto = some upto
advance_purge (some purged) upto = if ltb purged.index upto.index then some upto else some purged

module _ {V L M : Type 0} where
  -- `DurableState::default()`
  abbrev pub empty_state : DurableState V L M
  empty_state = record { vote = none; log = []; last_purged_log_id = none }

  unfoldable pub apply_record : DurableState V L M → WalRecord V L M → DurableState V L M
  unfolding advance_purge
  apply_record state (WalRecord.vote v) = record state { vote = some v }
  apply_record state (WalRecord.entry e) = record state { log = insert e.log_id.index e state.log }
  apply_record state (WalRecord.truncate since) = record state { log = below since state.log }
  apply_record state (WalRecord.purge upto) = record state {
    last_purged_log_id = advance_purge state.last_purged_log_id upto;
    log = split_off (wrapping_add upto.index 1) state.log;
  }

  -- The fold of `FileRaftLogStore::open` over the records of the file.
  unfoldable pub replay : DurableState V L M → List (WalRecord V L M) → DurableState V L M
  unfolding apply_record
  replay state [] = state
  replay state (r ∷ rs) = replay (apply_record state r) rs

  -- The records that `rewrite` writes: the vote, the purge point, then the entries in order.
  header_records : Option V → Option (LogId L) → List (WalRecord V L M) → List (WalRecord V L M)
  header_records none none rest = rest
  header_records none (some upto) rest = WalRecord.purge upto ∷ rest
  header_records (some v) none rest = WalRecord.vote v ∷ rest
  header_records (some v) (some upto) rest = WalRecord.vote v ∷ WalRecord.purge upto ∷ rest

  unfoldable pub rewrite_records : DurableState V L M → List (WalRecord V L M)
  unfolding header_records
  rewrite_records state =
      header_records state.vote state.last_purged_log_id (map WalRecord.entry (values state.log))

  -- `get_log_state`
  pub get_log_state : DurableState V L M → LogState L
  get_log_state state = record {
    last_purged_log_id = state.last_purged_log_id;
    last_log_id = elim (last? (values state.log)) [
      | none ↦ state.last_purged_log_id
      | some e ↦ some e.log_id
    ];
  }
