-- ===== src/Openraft/LogFile/Unended.antt =====
-- A WAL whose last line lacks its newline: `open` of
-- `crates/ganglion-openraft/src/openraft_runtime/durable.rs` accepts it, and appends to it.
use ganglion.Prelude.{
  none, some, Bool, true, false, List, [], ◌∷◌, ◌++◌, ◌≡◌, ap, ◌∙◌, arith, ok, err,
}
use ganglion.Openraft.Wal.{WalRecord, empty_state}
use ganglion.Openraft.Machine.{Bytes, Codec, DiskWrite}
use ganglion.Openraft.LogFile.{
  DiskAppend, flush, read_logs, FileRaftLogStore, rewrite, save_vote, read_lines, open_store,
  join_last,
}
use ganglion.Openraft.LogFile.Replay.{read_lines-malformed}
use ganglion.Openraft.LogFile.Writer.{flush_joined, join_last-append}

module _ {V L M : Type 0} (codec : Codec (WalRecord V L M)) (is_blank : Bytes → Bool) where
  -- A store that still has a last line without its newline is not compacted: it has the lines that
  -- it was opened on.
  open_store_unended :
      (write : DiskWrite) (lines : List Bytes) (store : FileRaftLogStore V L M)
      → open_store codec is_blank write lines false ≡ ok store
      → store.wal.ended ≡ false
      → (store.wal.lines ≡ lines) × (store.wal.detached ≡ false)
  unfolding open_store rewrite
  open_store_unended write lines store h n = (ground arith, ground arith)

  -- A vote that is saved to a file whose last line lacks its newline makes the file unreadable,
  -- though the save returns: the store was opened on that file, so it reads, and was not compacted;
  -- the vote goes on in its last line, and every later open fails. The two records in one line are
  -- neither blank nor one record.
  pub save_vote-open_store :
      (compact rename : DiskWrite) (write : DiskAppend) (earlier : List Bytes) (last line : Bytes)
      (ended : Bool) (store after : FileRaftLogStore V L M) (v : V)
      → codec.to_vec (WalRecord.vote v) ≡ some line
      → is_blank (last ++ line) ≡ false
      → codec.from_slice (last ++ line) ≡ none
      → open_store codec is_blank compact (earlier ++ last ∷ []) false ≡ ok store
      → store.wal.ended ≡ false
      → save_vote codec write store v ≡ (ok tt, after)
      → open_store codec is_blank rename after.wal.lines ended ≡ err read_logs
  unfolding save_vote open_store
  save_vote-open_store compact rename write earlier last line ended store after v w b g o n h =
      let (opened, attached) = open_store_unended compact (earlier ++ last ∷ []) store o n in
      let done : (flush write store.wal (line ∷ [])).0 ≡ true = ground arith in
      let left : after.wal.lines ≡ (flush write store.wal (line ∷ [])).1.lines = ground arith in
      let joined : after.wal.lines ≡ earlier ++ (last ++ line) ∷ [] =
        left
        ∙ flush_joined write store.wal line attached n done
        ∙ ap (λ lines. join_last lines line []) opened
        ∙ join_last-append earlier last line in
      let unread : read_lines codec is_blank empty_state 0 after.wal.lines ≡ none =
        ap (read_lines codec is_blank empty_state 0) joined
        ∙ read_lines-malformed codec is_blank empty_state 0 earlier [] (last ++ line) b g in
      ground arith
