-- ===== src/Openraft/Wal/Compaction.antt =====
-- Replaying a compacted WAL gives the state that was compacted.
use ganglion.Prelude.{
  ℕ, Option, some, none, List, [], ◌∷◌, ◌++◌, map, ◌≡◌, refl, ap, ◌∙◌, arith, nat_ord, Ordering,
}
use mathlib.Core.Path.{subst}
use mathlib.Core.List.{append_assoc, append-nil}
use ganglion.BTreeMap.{BTreeMap, insert, below, split_off, values}
use ganglion.BTreeMap.Sorted.{
  Above, IsSorted, Each, insert_last, insert-IsSorted, below-IsSorted, split_off-IsSorted,
}
use ganglion.Openraft.Command.{LogId, Entry}
use ganglion.Openraft.Wal.{
  WalRecord, DurableState, empty_state, apply_record, replay, rewrite_records, header_records,
}

module _ {L M : Type 0} where
  -- Each entry stands under its own index.
  abbrev pub Keyed : BTreeMap ℕ (Entry L M) → Type 0
  Keyed = Each (λ i e. i ≡ e.log_id.index)

  insert-Keyed :
      (e : Entry L M) (log : BTreeMap ℕ (Entry L M))
      → Keyed log
      → Keyed (insert e.log_id.index e log)
  unfolding insert
  insert-Keyed e [] h = (refl, tt)
  insert-Keyed e ((i, d) ∷ log) h = ground (arith, insert-Keyed e log h.1)

  below-Keyed : (k : ℕ) (log : BTreeMap ℕ (Entry L M)) → Keyed log → Keyed (below k log)
  unfolding below
  below-Keyed k [] h = tt
  below-Keyed k ((i, d) ∷ log) h = ground (arith, below-Keyed k log h.1)

  split_off-Keyed : (k : ℕ) (log : BTreeMap ℕ (Entry L M)) → Keyed log → Keyed (split_off k log)
  unfolding split_off
  split_off-Keyed k [] h = tt
  split_off-Keyed k ((i, d) ∷ log) h = ground (arith, split_off-Keyed k log h.1)

  Above-last :
      (a i : ℕ) (e : Entry L M) (m rest : BTreeMap ℕ (Entry L M))
      → Above a (m ++ (i, e) ∷ rest)
      → nat_ord.cmp a i ≡ Ordering.lt
  Above-last a i e [] rest h = h.0
  Above-last a i e ((j, d) ∷ m) rest h = Above-last a i e m rest h.1

  -- In an ordered map every key comes before those that follow.
  before_rest :
      (m : BTreeMap ℕ (Entry L M)) (i : ℕ) (e : Entry L M) (rest : BTreeMap ℕ (Entry L M))
      → IsSorted (m ++ (i, e) ∷ rest)
      → Each (λ j d. nat_ord.cmp j i ≡ Ordering.lt) m
  before_rest [] i e rest s = tt
  before_rest ((j, d) ∷ m) i e rest s = (Above-last j i e m rest s.0, before_rest m i e rest s.1)

module _ {V L M : Type 0} where
  -- The log is in index order, and each entry stands under its own index.
  pub record IsIndexed (state : DurableState V L M) : Type 0 where
    pub sorted : IsSorted state.log
    pub keyed : Keyed state.log

  pub replay-append :
      (state : DurableState V L M) (xs ys : List (WalRecord V L M))
      → replay state (xs ++ ys) ≡ replay (replay state xs) ys
  unfolding replay
  replay-append state [] ys = refl
  replay-append state (x ∷ xs) ys = replay-append (apply_record state x) xs ys

  -- If the log is in index order, each entry under its own index, it is so after any record.
  pub apply_record-IsIndexed :
      (state : DurableState V L M) (r : WalRecord V L M)
      → IsIndexed state
      → IsIndexed (apply_record state r)
  unfolding apply_record
  apply_record-IsIndexed state (WalRecord.vote v) h = record { sorted = h.sorted; keyed = h.keyed }
  apply_record-IsIndexed state (WalRecord.entry e) h = record {
    sorted = insert-IsSorted e.log_id.index e state.log h.sorted;
    keyed = insert-Keyed e state.log h.keyed;
  }
  apply_record-IsIndexed state (WalRecord.truncate since) h = record {
    sorted = below-IsSorted since state.log h.sorted;
    keyed = below-Keyed since state.log h.keyed;
  }
  apply_record-IsIndexed state (WalRecord.purge upto) h = record {
    sorted = split_off-IsSorted _ state.log h.sorted;
    keyed = split_off-Keyed _ state.log h.keyed;
  }

  replay_entries :
      (state : DurableState V L M) (done rest : BTreeMap ℕ (Entry L M))
      → IsSorted (done ++ rest)
      → Keyed rest
      → replay (record state { log = done }) (map WalRecord.entry (values rest))
        ≡ record state { log = done ++ rest }
  unfolding replay
  replay_entries state done [] s k = rw append-nil
  replay_entries state done ((i, e) ∷ rest) s k =
      let grown = done ++ (i, e) ∷ [] in
      let whole = append_assoc done ((i, e) ∷ []) rest in
      let at_end : insert e.log_id.index e done ≡ grown =
        subst (λ x. insert x e done ≡ grown) k.0
          (insert_last done i e (before_rest done i e rest s)) in
      ap (λ m. replay (record state { log = m }) (map WalRecord.entry (values rest))) at_end
      ∙ replay_entries state grown rest (rw whole s) k.1
      ∙ ap (λ l. record state { log = l }) whole

  replay_header :
      (v : Option V) (p : Option (LogId L)) (log : BTreeMap ℕ (Entry L M))
      → IsSorted log
      → Keyed log
      → replay empty_state (header_records v p (map WalRecord.entry (values log)))
        ≡ record { vote = v; log = log; last_purged_log_id = p }
  unfolding header_records replay split_off
  replay_header none none log s k =
      replay_entries (record { vote = none; log = []; last_purged_log_id = none }) [] log s k
  replay_header none (some p) log s k =
      replay_entries (record { vote = none; log = []; last_purged_log_id = some p }) [] log s k
  replay_header (some v) none log s k =
      replay_entries (record { vote = some v; log = []; last_purged_log_id = none }) [] log s k
  replay_header (some v) (some p) log s k =
      replay_entries (record { vote = some v; log = []; last_purged_log_id = some p }) [] log s k

  -- For a state whose log is in index order, each entry under its own index, replaying the
  -- rewritten WAL from nothing gives the state back: vote, purge point and every entry.
  pub replay-rewrite_records :
      (state : DurableState V L M)
      → IsIndexed state
      → replay empty_state (rewrite_records state) ≡ state
  unfolding rewrite_records
  replay-rewrite_records state h =
      replay_header state.vote state.last_purged_log_id state.log h.sorted h.keyed
