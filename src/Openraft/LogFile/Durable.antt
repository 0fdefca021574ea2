-- ===== src/Openraft/LogFile/Durable.antt =====
-- What survives a restart: the file of a store replays to the store's state.
use ganglion.Prelude.{
  ◌+◌, some, Bool, true, false, List, [], ◌∷◌, map, ◌≡◌, refl, ap, ◌∙◌, arith, length, ok,
  Option-cases, Bool-cases, ltb, inl, inr,
}
use mathlib.Core.Path.{subst}
use ganglion.Openraft.Command.{LogId, Entry}
use ganglion.Openraft.Wal.{
  WalRecord, DurableState, empty_state, apply_record, replay, rewrite_records,
}
use ganglion.Openraft.Wal.Compaction.{IsIndexed, apply_record-IsIndexed, replay-rewrite_records}
use ganglion.Openraft.Machine.{Bytes, Codec, RoundTrips, DiskWrite}
use ganglion.Openraft.LogFile.{
  DiskAppend, WalWriter, flush, FileRaftLogStore, encode_all, rewrite, save_vote, append, truncate,
  purge, read_lines, open_store, count_some, compact_dead_record_threshold,
}
use ganglion.Openraft.LogFile.Replay.{IsDurable, read_lines-encode_all, read_lines-IsIndexed}
use ganglion.Openraft.LogFile.Logged.{logged, encode_one, replay-entries}

module _ {V L M : Type 0} (codec : Codec (WalRecord V L M)) (is_blank : Bytes → Bool)
    (round : RoundTrips codec)
    (visible : (r : WalRecord V L M) (line : Bytes)
      → codec.to_vec r ≡ some line
      → is_blank line ≡ false) where
  -- Started from a durable store whose file ends in a newline, a vote whose save returned is in the
  -- state, and the store is durable, its file ending in a newline. Records that are written can be
  -- read back, and their lines are not blank.
  pub save_vote-IsDurable :
      (write : DiskAppend) (store after : FileRaftLogStore V L M) (v : V)
      → IsDurable codec is_blank store
      → store.wal.ended ≡ true
      → save_vote codec write store v ≡ (ok tt, after)
      → (after.state.vote ≡ some v) × (IsDurable codec is_blank after) × (after.wal.ended ≡ true)
  unfolding save_vote replay
  save_vote-IsDurable write store after v d n h =
      elim (Option-cases (codec.to_vec (WalRecord.vote v))) [
        | inl failed ↦ absurd (ground arith)
        | inr (line, wrote) ↦
            let done : (flush write store.wal (line ∷ [])).0 ≡ true = ground arith in
            let (state, kept, ended) =
              logged codec is_blank round visible write store (WalRecord.vote v ∷ []) (line ∷ []) d
                n (encode_one codec is_blank round visible _ line wrote) done in
            (ground arith, subst (IsDurable codec is_blank) (ground arith) kept, ground arith)
      ]

  -- Started from a durable store whose file ends in a newline, a truncation that returned has cut
  -- the state, and the store is durable, its file ending in a newline. Records that are written can
  -- be read back, and their lines are not blank.
  pub truncate-IsDurable :
      (write : DiskAppend) (store after : FileRaftLogStore V L M) (log_id : LogId L)
      → IsDurable codec is_blank store
      → store.wal.ended ≡ true
      → truncate codec write store log_id ≡ (ok tt, after)
      → (after.state ≡ apply_record store.state (WalRecord.truncate log_id.index))
        × (IsDurable codec is_blank after)
        × (after.wal.ended ≡ true)
  unfolding truncate replay
  truncate-IsDurable write store after log_id d n h =
      elim (Option-cases (codec.to_vec (WalRecord.truncate log_id.index))) [
        | inl failed ↦ absurd (ground arith)
        | inr (line, wrote) ↦
            let done : (flush write store.wal (line ∷ [])).0 ≡ true = ground arith in
            let (state, kept, ended) =
              logged codec is_blank round visible write store (WalRecord.truncate log_id.index ∷ [])
                (line ∷ []) d n (encode_one codec is_blank round visible _ line wrote) done in
            (ground arith, subst (IsDurable codec is_blank) (ground arith) kept, ground arith)
      ]

  -- Started from a durable store whose file ends in a newline, an append whose flush callback heard
  -- success has put its entries into the state, and the store is durable: its file replays to that
  -- state, and ends in a newline. Records that are written can be read back, and their lines are not
  -- blank.
  pub append-IsDurable :
      (write : DiskAppend) (store after : FileRaftLogStore V L M) (entries : List (Entry L M))
      → IsDurable codec is_blank store
      → store.wal.ended ≡ true
      → append codec write store entries ≡ (ok (some true), after)
      → (after.state ≡ replay store.state (map WalRecord.entry entries))
        × (IsDurable codec is_blank after)
        × (after.wal.ended ≡ true)
  unfolding append replay
  append-IsDurable write store after [] d n h =
      (ground arith, subst (IsDurable codec is_blank) (ground arith) d, ground arith)
  append-IsDurable write store after (e ∷ es) d n h =
      let entries = e ∷ es in
      elim (Option-cases (encode_all codec (map WalRecord.entry entries))) [
        | inl failed ↦ absurd (ground arith)
        | inr ([], wrote) ↦ absurd (ground arith)
        | inr (line ∷ more, wrote) ↦
            let done : (flush write store.wal (line ∷ more)).0 ≡ true = ground arith in
            let (state, kept, ended) =
              logged codec is_blank round visible write store (map WalRecord.entry entries)
                (line ∷ more) d n wrote done in
            (
              ground (arith, replay-entries codec is_blank round visible store.state entries),
              subst (IsDurable codec is_blank)
                  (ground (arith, replay-entries codec is_blank round visible store.state entries))
                  kept,
              ground arith,
            )
      ]

  -- A file that was rewritten replays to the state that was given to the rewrite.
  rewritten :
      (write : DiskWrite) (inject fail_writes : Bool) (wal : WalWriter) (state : DurableState V L M)
      → IsIndexed state
      → wal.failed ≡ false
      → (rewrite codec write inject wal state).0 ≡ true
      → IsDurable codec is_blank (record {
        state = state;
        wal = (rewrite codec write inject wal state).1;
        fail_writes = fail_writes;
      })
  unfolding rewrite
  rewritten write inject fail_writes wal state indexed healthy done =
      elim (Option-cases (encode_all codec (rewrite_records state))) [
        | inl failed ↦ absurd (ground arith)
        | inr (lines, wrote) ↦ record {
          records = 0 + length (rewrite_records state);
          replays =
              ap (read_lines codec is_blank empty_state 0) (ground arith)
              ∙ read_lines-encode_all codec is_blank round visible (rewrite_records state) lines
                  empty_state 0 wrote
              ∙ ap (λ s. some (s, 0 + length (rewrite_records state)))
                  (replay-rewrite_records state indexed);
          healthy = ground arith;
          attached = ground arith;
          indexed = indexed;
        }
      ]

  rewritten_ended :
      (write : DiskWrite) (inject : Bool) (wal : WalWriter) (state : DurableState V L M)
      → (rewrite codec write inject wal state).0 ≡ true
      → (rewrite codec write inject wal state).1.ended ≡ true
  unfolding rewrite
  rewritten_ended write inject wal state done = ground arith

  -- Started from a durable store, a purge that returned has purged the state, and the store with
  -- its compacted file is durable, the file ending in a newline. Records that are written can be read back, and their lines
  -- are not blank.
  pub purge-IsDurable :
      (write : DiskWrite) (store after : FileRaftLogStore V L M) (log_id : LogId L)
      → IsDurable codec is_blank store
      → purge codec write store log_id ≡ (ok tt, after)
      → (after.state ≡ apply_record store.state (WalRecord.purge log_id))
        × (IsDurable codec is_blank after)
        × (after.wal.ended ≡ true)
  unfolding purge apply_record
  purge-IsDurable write store after log_id d h =
      let state = apply_record store.state (WalRecord.purge log_id) in
      let indexed = apply_record-IsIndexed store.state (WalRecord.purge log_id) d.indexed in
      let done : (rewrite codec write store.fail_writes store.wal state).0 ≡ true = ground arith in
      let kept =
        rewritten write store.fail_writes store.fail_writes store.wal state indexed d.healthy
          done in
      let ended = rewritten_ended write store.fail_writes store.wal state done in
      (ground arith, subst (IsDurable codec is_blank) (ground arith) kept, ground arith)

  -- A store opened on a file that ends in a newline has such a file, compacted or not.
  pub open_store_ended :
      (write : DiskWrite) (lines : List Bytes) (store : FileRaftLogStore V L M)
      → open_store codec is_blank write lines true ≡ ok store
      → store.wal.ended ≡ true
  unfolding open_store rewrite
  open_store_ended write lines store h = ground arith

  -- A store that was opened, compacted on the way or not, is durable. Records that are written
  -- can be read back, and their lines are not blank.
  pub open_store-IsDurable :
      (write : DiskWrite) (lines : List Bytes) (ended : Bool) (store : FileRaftLogStore V L M)
      → open_store codec is_blank write lines ended ≡ ok store
      → IsDurable codec is_blank store
  unfolding open_store
  open_store-IsDurable write lines ended store h =
      elim (Option-cases (read_lines codec is_blank empty_state 0 lines)) [
        | inl malformed ↦ absurd (ground arith)
        | inr ((state, n), replayed) ↦
            let empty_indexed : IsIndexed (empty_state {V = V} {L = L} {M = M}) = record {
              sorted = tt;
              keyed = tt;
            } in
            let indexed =
              read_lines-IsIndexed codec is_blank empty_state 0 lines state n empty_indexed
                replayed in
            let opened : WalWriter = record {
              lines = lines;
              ended = ended;
              failed = false;
              detached = false;
              fsyncs = 0;
            } in
            let plain : IsDurable codec is_blank
                (record { state = state; wal = opened; fail_writes = false }) =
              record {
                records = n;
                replays = replayed;
                healthy = refl;
                attached = refl;
                indexed = indexed;
              } in
            elim (Bool-cases (
              ltb
                (length state.log
                  + count_some state.vote
                  + count_some state.last_purged_log_id
                  + compact_dead_record_threshold)
                n)) [
                  | inl dead ↦
                      subst (IsDurable codec is_blank) (ground arith)
                        (rewritten write false false opened state indexed refl (ground arith))
                  | inr live ↦ subst (IsDurable codec is_blank) (ground arith) plain
                ]
      ]
