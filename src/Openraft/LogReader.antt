-- ===== src/Openraft/LogReader.antt =====
-- `try_get_log_entries` of `crates/ganglion-openraft/src/openraft_runtime/durable.rs` and
-- `storage.rs`: the entries of a log whose indices are in a range.
use ganglion.Prelude.{
  ℕ, List, [], ◌∷◌, ◌≡◌, arith, Bool, true, ◌&&◌, ltb, leb, if◌then◌else◌, none, nat_ord,
}
use ganglion.BTreeMap.{BTreeMap, get, values}
use ganglion.Openraft.Command.{Entry}
use ganglion.Openraft.MemoryLog.{LogStoreInner}
use ganglion.Openraft.LogFile.{FileRaftLogStore}

-- `std::ops::Bound`
pub data Bound : Type 0 where
  included excluded : ℕ → Bound
  unbounded : Bound

abbrev not_before : Bound → ℕ → Bool
not_before (included first) i = leb first i
not_before (excluded first) i = ltb first i
not_before unbounded i = true

abbrev not_after : Bound → ℕ → Bool
not_after (included last) i = leb i last
not_after (excluded last) i = ltb i last
not_after unbounded i = true

abbrev pub in_range : Bound → Bound → ℕ → Bool
in_range from to i = not_before from i && not_after to i

-- `BTreeMap::range`, for bounds in order; with the first bound after the last one the standard
-- library panics, where this range is empty.
pub range : {V : Type 0} → Bound → Bound → BTreeMap ℕ V → BTreeMap ℕ V
range from to [] = []
range from to ((i, v) ∷ m) =
    let rest = range from to m in if in_range from to i then (i, v) ∷ rest else rest

module _ {V L M : Type 0} where
  unfoldable pub file_log_entries : FileRaftLogStore V L M → Bound → Bound → List (Entry L M)
  unfolding range
  file_log_entries store from to = values (range from to store.state.log)

  memory_log_entries : LogStoreInner V L M → Bound → Bound → List (Entry L M)
  unfolding range
  memory_log_entries inner from to = values (range from to inner.log)

-- An index is found in a range of a map exactly when it is in the range and in the map, with the
-- same value.
get-range :
    {V : Type 0} (from to : Bound) (k : ℕ) (m : BTreeMap ℕ V)
    → get k (range from to m) ≡ (if in_range from to k then get k m else none)
unfolding range get
get-range from to k [] = ground arith
get-range from to k ((i, v) ∷ m) =
    ground (arith, get-range from to k m, nat_ord.cmp_eq k i, nat_ord.cmp_refl k)
