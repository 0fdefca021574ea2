-- ===== src/Adapter/Tests.antt =====
-- The results of the metadata node at sample data.
use ganglion.Prelude.{
  ◌≤◌, ◌<◌, some, none, List, [], ◌∷◌, ◌++◌, ◌≡◌, ◌≢◌, ◌⊎◌, refl, arith, same, Result, ok, err,
}
use ganglion.Core.Model.{Str, CoordinationSnapshot, default_snapshot}
use ganglion.Core.Placement.{PlacementInput, PlacementError}
use ganglion.Storage.MemoryLog.{MetadataLogEntry}
use ganglion.Storage.FileLog.{
  MetadataLogError, io, FileWrite, complete, not_created, strict, truncate_tail, read_all_entries,
  write_entries,
}
use ganglion.Storage.FileLog as File
use ganglion.Storage.FileLog.RoundTrip.{IsOrdered}
use ganglion.Storage.Persisted.{
  persisted_lines, persisted_lines-ReadsBack, persisted_lines-ReadsOrdered,
  persisted_lines-ReadsWords,
}
use ganglion.Storage.Persisted.Samples.{serde, serde-Reads}
use ganglion.Storage.Samples.{
  line_codec, line_codec-ReadsOrdered, line_codec-ReadsWords, line_codec-ReadsBack,
}
use ganglion.Adapter.Error.{not_leader, stale_term, stale_generation, storage}
use ganglion.Adapter.Log.{
  MetadataLog, IsLog, memory_log, memory_log-IsLog, FileState, file_log, file_log-IsLog,
}
use ganglion.Adapter.Node.{
  MetadataNode, NodeError, apply_snapshot, append_snapshot, current_term, new, new_store,
}
use ganglion.Adapter.Node.Guards.{proposed_term, apply_snapshot-err}
use ganglion.Adapter.Node.Reopen.{new-apply_snapshot, new-of_failed_append}
use ganglion.Adapter.Consensus.{IsConsensus, in_memory_consensus, node_consensus-IsConsensus}
use ganglion.Adapter.Consensus.Publish.{plan_and_publish, plan_and_publish-IsConsensus}
use ganglion.Adapter.Profile.{
  PersistedMetadataReplayProfileResolution, truncate_tail_profile, explicit_source, not_present,
  default_profile, from_replay_policy, to_replay_policy, tail_prefix, from_str, from_normalized,
  parse_tail_limit, parse_usize, parse_digits, from_explicit_or_env,
}
use ganglion.Adapter.Profile.Opening.{new_with_tail_replay_limit}
use ganglion.Adapter.Profile.Persisted.{
  PersistedMetadataNode, log_policy, new_with_replay_policy, new_with_replay_profile,
  new_with_replay_profile_str,
}

abbrev leader : Str
leader = 97 ∷ []

abbrev generation_two : CoordinationSnapshot
generation_two = record default_snapshot { generation = 2 }

abbrev generation_three : CoordinationSnapshot
generation_three = record default_snapshot { generation = 3 }

abbrev node_on : {S : Type 0} → S → MetadataNode S
node_on s = record {
  local_node_id = leader;
  store = record { current_term = 2; leader = some leader; snapshot = generation_two };
  log = s;
}

abbrev logged : List MetadataLogEntry
logged = record { term = 2; index = 1; snapshot = generation_two } ∷ []

abbrev in_memory : MetadataNode (List MetadataLogEntry)
in_memory = node_on logged

abbrev applied : MetadataNode (List MetadataLogEntry)
applied = (apply_snapshot memory_log in_memory leader generation_three (some 3)).1

applies : apply_snapshot memory_log in_memory leader generation_three (some 3) ≡ (ok tt, applied)
unfolding apply_snapshot append_snapshot same
applies = refl

new-apply_snapshot_example :
    new memory_log leader default_snapshot applied.log
    ≡ ok (record {
      local_node_id = leader;
      store = record applied.store { leader = none };
      log = applied.log;
    })
new-apply_snapshot_example =
    new-apply_snapshot memory_log memory_log-IsLog in_memory applied leader leader generation_three
      default_snapshot (some 3) logged refl (omega arith) tt applies

file_log-IsLog_example : IsLog IsOrdered (file_log (persisted_lines serde) (truncate_tail 1))
file_log-IsLog_example =
    file_log-IsLog (persisted_lines serde) (truncate_tail 1)
      (persisted_lines-ReadsBack serde serde-Reads) (persisted_lines-ReadsOrdered serde serde-Reads)
      (persisted_lines-ReadsWords serde serde-Reads)

refuses :
    apply_snapshot memory_log in_memory leader default_snapshot none
    ≡ (err stale_generation, in_memory)
unfolding apply_snapshot append_snapshot current_term same
refuses = refl

abbrev Refused : MetadataNode (List MetadataLogEntry) → NodeError → Type 0
Refused after error =
    ((after ≡ in_memory)
      × (((error ≡ not_leader) × (in_memory.store.leader ≢ some leader))
          ⊎ (((error ≡ stale_term) × (proposed_term in_memory none < in_memory.store.current_term))
              ⊎ ((error ≡ stale_generation)
                  × (default_snapshot.generation < in_memory.store.snapshot.generation)))))
    ⊎ (((e : MetadataLogError) × (error ≡ storage e))
        × (((after.store.snapshot ≡ in_memory.store.snapshot)
              × (after.store.leader ≡ in_memory.store.leader))
            × ((after.local_node_id ≡ in_memory.local_node_id)
                × (in_memory.store.current_term ≤ after.store.current_term))))

apply_snapshot-err_example : Refused in_memory stale_generation
apply_snapshot-err_example =
    apply_snapshot-err memory_log in_memory in_memory leader default_snapshot none stale_generation
      refuses

-- A file that the node has written its first snapshot to, where the next write but one fails.
abbrev persisted : FileState
persisted = record { file = some ((1 ∷ 2 ∷ 1 ∷ 2 ∷ []) ∷ []); writes = complete ∷ not_created ∷ [] }

abbrev log : MetadataLog FileState
log = file_log line_codec strict

abbrev on_file : MetadataNode FileState
on_file = node_on persisted

abbrev cleared : FileState
cleared = record { file = some []; writes = not_created ∷ [] }

abbrev left : FileState
left = record { file = some []; writes = [] }

clears : log.clear persisted ≡ (ok tt, cleared)
unfolding File.clear
clears = refl

fails : log.append_entry cleared 3 generation_three ≡ (err io, left)
unfolding File.append_entry
fails = refl

empty : log.entries left ≡ ok []
unfolding read_all_entries
empty = refl

new-of_failed_append_example :
    let (result, after) = apply_snapshot log on_file leader generation_three (some 3) in
    ((result ≡ err (storage io)) × (after.store.snapshot ≡ on_file.store.snapshot))
    × (new log leader default_snapshot after.log
        ≡ ok (record {
          local_node_id = leader;
          store = record { current_term = 1; leader = none; snapshot = default_snapshot };
          log = after.log;
        }))
new-of_failed_append_example =
    new-of_failed_append log
      (file_log-IsLog line_codec strict line_codec-ReadsBack line_codec-ReadsOrdered
        line_codec-ReadsWords)
      on_file cleared left leader leader generation_three default_snapshot 3 io refl (omega arith)
      (omega arith) clears fails empty

abbrev plan : PlacementInput → Result PlacementError CoordinationSnapshot
plan input = ok (record default_snapshot { generation = input.generation })

abbrev input : PlacementInput
input = record { nodes = []; resources = []; existing = []; generation = 3; target_followers = 0 }

abbrev untrimmed : Str → Str
untrimmed s = s

in_memory_consensus-IsConsensus : IsConsensus in_memory_consensus
in_memory_consensus-IsConsensus = node_consensus-IsConsensus memory_log

plan_and_publish-IsConsensus_example :
    let (result, (after, published)) =
      plan_and_publish in_memory_consensus in_memory leader plan input in
    ((planned : CoordinationSnapshot) × ((plan input ≡ ok planned)
        × (result ≡ ok planned)
        × (published ≡ planned ∷ []))
      × (after.store.snapshot ≡ planned)
      × (in_memory.store.leader ≡ some leader)
      × (in_memory.store.snapshot.generation ≤ planned.generation))
    ⊎ ((e : NodeError) × (result ≡ err e)
        × (published ≡ [])
        × (after.store.snapshot ≡ in_memory.store.snapshot))
plan_and_publish-IsConsensus_example =
    plan_and_publish-IsConsensus in_memory_consensus in_memory leader plan input
      in_memory_consensus-IsConsensus

-- `tail:1`
abbrev raw_profile : Str
raw_profile = tail_prefix ++ 49 ∷ []

abbrev resolution : PersistedMetadataReplayProfileResolution
resolution = record { profile = truncate_tail_profile 1; source = explicit_source }

abbrev opened : PersistedMetadataNode
opened = record {
  inner = record {
    local_node_id = leader;
    store = record { current_term = 2; leader = none; snapshot = generation_two };
    log = persisted;
  };
  replay_policy = truncate_tail 1;
  startup_replay_profile = default_profile;
}

resolves : from_explicit_or_env untrimmed (some raw_profile) not_present ≡ ok resolution
unfolding from_explicit_or_env from_str from_normalized parse_tail_limit parse_usize parse_digits
    same
resolves = refl

opens :
    new_with_replay_profile_str line_codec persisted leader default_snapshot untrimmed not_present
      (some raw_profile)
    ≡ ok (opened, resolution)
unfolding new_with_replay_profile_str new_with_replay_profile new_with_replay_policy log_policy
    from_explicit_or_env from_str from_normalized parse_tail_limit parse_usize parse_digits same new
    new_store read_all_entries to_replay_policy from_replay_policy
opens = refl

-- A limit of one is reported as the default profile.
opens_limited :
    new_with_tail_replay_limit line_codec persisted leader default_snapshot 1 ≡ ok opened
unfolding new_with_tail_replay_limit new_with_replay_profile new_with_replay_policy log_policy new
    new_store read_all_entries to_replay_policy from_replay_policy
opens_limited = refl
