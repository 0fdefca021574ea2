-- ===== src/Openraft/LogFile/Logged.antt =====
-- Records that are appended to the file of a durable store.
use ganglion.Prelude.{
  ◌+◌, some, Bool, true, false, List, [], ◌∷◌, map, ◌≡◌, refl, ap, ◌∙◌, arith, length,
}
use ganglion.Openraft.Command.{Entry}
use ganglion.Openraft.Wal.{WalRecord, DurableState, empty_state, apply_record, replay}
use ganglion.Openraft.Machine.{Bytes, Codec, RoundTrips}
use ganglion.Openraft.LogFile.{
  DiskAppend, flush, FileRaftLogStore, encode_all, insert_entries, read_lines,
}
use ganglion.Openraft.LogFile.Replay.{
  IsDurable, read_lines-append, read_lines-encode_all, replay-IsIndexed,
}
use ganglion.Openraft.LogFile.Writer.{flush_done}

module _ {V L M : Type 0} (codec : Codec (WalRecord V L M)) (is_blank : Bytes → Bool)
    (round : RoundTrips codec)
    (visible : (r : WalRecord V L M) (line : Bytes)
      → codec.to_vec r ≡ some line
      → is_blank line ≡ false) where
  -- A store that has a state with some records replayed, is durable, and can be written to behind
  -- its last line.
  abbrev pub Extends : DurableState V L M → List (WalRecord V L M) → FileRaftLogStore V L M → Type 0
  Extends state rs after =
      (after.state ≡ replay state rs) × (IsDurable codec is_blank after) × (after.wal.ended ≡ true)

  -- Records that the writer reports as written extend the durable state by themselves.
  pub logged :
      (write : DiskAppend) (store : FileRaftLogStore V L M) (rs : List (WalRecord V L M))
      (lines : List Bytes)
      → IsDurable codec is_blank store
      → store.wal.ended ≡ true
      → encode_all codec rs ≡ some lines
      → (flush write store.wal lines).0 ≡ true
      → Extends store.state rs
          (record store { wal = (flush write store.wal lines).1; state = replay store.state rs })
  logged write store rs lines d n e h =
      let (appended, healthy, attached, ended) = flush_done write store.wal lines d.attached n h in
      let kept : IsDurable codec is_blank
          (record store { wal = (flush write store.wal lines).1; state = replay store.state rs }) =
        record {
          records = d.records + length rs;
          replays =
              ap (read_lines codec is_blank empty_state 0) appended
              ∙ read_lines-append codec is_blank empty_state 0 store.wal.lines lines store.state
                  d.records d.replays
              ∙ read_lines-encode_all codec is_blank round visible rs lines store.state d.records e;
          healthy = healthy;
          attached = attached;
          indexed = replay-IsIndexed codec is_blank store.state rs d.indexed;
        } in
      (refl, kept, ended)

  pub encode_one :
      (r : WalRecord V L M) (line : Bytes)
      → codec.to_vec r ≡ some line
      → encode_all codec (r ∷ []) ≡ some (line ∷ [])
  unfolding encode_all
  encode_one r line h = ground arith

  pub replay-entries :
      (state : DurableState V L M) (entries : List (Entry L M))
      → replay state (map WalRecord.entry entries)
        ≡ record state { log = insert_entries codec state.log entries }
  unfolding replay insert_entries
  replay-entries state [] = refl
  replay-entries state (e ∷ es) = replay-entries (apply_record state (WalRecord.entry e)) es
