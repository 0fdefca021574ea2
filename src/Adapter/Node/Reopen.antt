-- ===== src/Adapter/Node/Reopen.antt =====
-- A node that is opened on the log that another node left.
use ganglion.Prelude.{
  ℕ, ◌≤◌, ◌<◌, Bool-cases, inl, inr, Option, some, none, List, [], ◌≡◌, arith, u64_max, ltb,
  Result-cases, ok, err, last?-append,
}
use ganglion.Core.Model.{Str, option_str_eq, CoordinationSnapshot}
use ganglion.Storage.MemoryLog.{MetadataLogEntry, next_index}
use ganglion.Storage.MemoryLog as Memory
use ganglion.Storage.FileLog.{MetadataLogError}
use ganglion.Adapter.Error.{storage}
use ganglion.Adapter.Log.{MetadataLog, IsLog}
use ganglion.Adapter.Node.Guards.{append_snapshot-ok, proposed_term}
use ganglion.Adapter.Node.{
  MetadataNode, OpenraftLikeStore, append_snapshot, apply_snapshot, current_term, new, new_store,
}

module _ {S : Type 0} (log : MetadataLog S) {Fits : CoordinationSnapshot → Type 0}
    (laws : IsLog Fits log) where
  latest_entry-append :
      (s t : S) (es : List MetadataLogEntry) (term : ℕ) (snapshot : CoordinationSnapshot)
      (entry : MetadataLogEntry)
      → log.entries s ≡ ok es
      → next_index es < u64_max
      → Fits snapshot
      → log.append_entry s term snapshot ≡ (ok entry, t)
      → log.latest_entry t ≡ ok (some (Memory.append_entry es term snapshot).0)
  unfolding Memory.append_entry
  latest_entry-append s t es term snapshot entry h b fits k = ground (
    arith,
    laws.entries-append_entry s t es term snapshot entry h b fits k,
    laws.latest-entries t (Memory.append_entry es term snapshot).1,
    last?-append es (Memory.append_entry es term snapshot).0,
  )

  latest_entry-append_snapshot :
      (store after : OpenraftLikeStore) (s t : S) (proposer : Str) (snapshot : CoordinationSnapshot)
      (term : ℕ) (es : List MetadataLogEntry) (entry : MetadataLogEntry)
      → log.entries s ≡ ok es
      → next_index es < u64_max
      → Fits snapshot
      → append_snapshot log store s proposer snapshot term ≡ (ok entry, (after, t))
      → (index : ℕ) × (log.latest_entry t
          ≡ ok (some (record { term = term; index = index; snapshot = snapshot })))
  unfolding append_snapshot Memory.append_entry
  latest_entry-append_snapshot store after s t proposer snapshot term es entry r b fits h =
      elim (Bool-cases (ltb store.current_term term)) [
        | inl newer ↦
            let cleared = (log.clear s).1 in
            let emptied : log.entries cleared ≡ ok [] =
              laws.entries-clear s cleared (ground arith) in
            let written : log.append_entry cleared term snapshot ≡ (ok entry, t) = ground arith in
            (
              1,
              latest_entry-append cleared t [] term snapshot entry emptied (ground arith) fits
                  written,
            )
        | inr same ↦
            (next_index es, ground (arith, latest_entry-append s t es term snapshot entry r b fits))
      ]

  new-append_snapshot :
      (node after : MetadataNode S) (proposer name : Str) (snapshot initial : CoordinationSnapshot)
      (term : ℕ) (es : List MetadataLogEntry) (entry : MetadataLogEntry)
      → log.entries node.log ≡ ok es
      → next_index es < u64_max
      → Fits snapshot
      → append_snapshot log node.store node.log proposer snapshot term
        ≡ (ok entry, (after.store, after.log))
      → new log name initial after.log
        ≡ ok (record {
          local_node_id = name;
          store = record after.store { leader = none };
          log = after.log;
        })
  unfolding new new_store
  new-append_snapshot node after proposer name snapshot initial term es entry r b fits h =
      let latest =
        latest_entry-append_snapshot node.store after.store node.log after.log proposer snapshot
          term es entry r b fits h in
      let held =
        append_snapshot-ok log node.store after.store node.log after.log proposer snapshot term
          entry h in
      ground arith

  -- A node that is opened on the log after an `apply_snapshot` that succeeded has the term and
  -- the snapshot of the node that made the call, whatever snapshot it is given to begin with, and
  -- no leader. The log is one that a node may rely on for the snapshot, can be read, and has
  -- not reached the largest index.
  pub new-apply_snapshot :
      (node after : MetadataNode S) (proposer name : Str) (snapshot initial : CoordinationSnapshot)
      (term : Option ℕ) (es : List MetadataLogEntry)
      → log.entries node.log ≡ ok es
      → next_index es < u64_max
      → Fits snapshot
      → apply_snapshot log node proposer snapshot term ≡ (ok tt, after)
      → new log name initial after.log
        ≡ ok (record {
          local_node_id = name;
          store = record after.store { leader = none };
          log = after.log;
        })
  unfolding apply_snapshot current_term
  new-apply_snapshot node after proposer name snapshot initial term es r b fits h =
      let at = proposed_term node term in
      elim (Result-cases (append_snapshot log node.store node.log proposer snapshot at).0) [
        | inl (e, failed) ↦ absurd (ground arith)
        | inr (entry, appended) ↦
            new-append_snapshot node after proposer name snapshot initial at es entry r b fits
              (ground arith)
      ]

  -- A call at a newer term of the leader whose append fails after the log is cleared, and leaves
  -- no entry there, loses the snapshot: the node goes on with the snapshot it had, and a node
  -- that is opened on its log starts from the snapshot that it is given.
  pub new-of_failed_append :
      (node : MetadataNode S) (cleared left : S) (name proposer : Str)
      (snapshot initial : CoordinationSnapshot) (term : ℕ) (error : MetadataLogError)
      → node.store.leader ≡ some proposer
      → node.store.current_term < term
      → node.store.snapshot.generation ≤ snapshot.generation
      → log.clear node.log ≡ (ok tt, cleared)
      → log.append_entry cleared term snapshot ≡ (err error, left)
      → log.entries left ≡ ok []
      → let (result, after) = apply_snapshot log node proposer snapshot (some term) in
        ((result ≡ err (storage error)) × (after.store.snapshot ≡ node.store.snapshot))
        × (new log name initial after.log
            ≡ ok (record {
              local_node_id = name;
              store = record { current_term = 1; leader = none; snapshot = initial };
              log = after.log;
            }))
  unfolding new new_store apply_snapshot append_snapshot
  new-of_failed_append node cleared left name proposer snapshot initial term error l t g c a e =
      ground (
        arith,
        option_str_eq.equals_iff node.store.leader (some proposer),
        laws.latest-entries left [] e,
      )
