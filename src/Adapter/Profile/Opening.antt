-- ===== src/Adapter/Profile/Opening.antt =====
-- The constructors of `PersistedMetadataNode` in `crates/ganglion-openraft/src/lib.rs` that fix a
-- replay profile.
use ganglion.Prelude.{ℕ, ◌≡◌, refl, arith, Result, ok, Result-cases, inl, inr}
use ganglion.Core.Model.{Str, CoordinationSnapshot}
use ganglion.Storage.FileLog.{FileMetadataReplayPolicy, strict, LineCodec, read_all_entries}
use ganglion.Storage.FileLog.Lenient.{read_all_entries-strict}
use ganglion.Adapter.Log.{FileState, file_log}
use ganglion.Adapter.Node.{MetadataNode, NodeError}
use ganglion.Adapter.Node as Node
use ganglion.Adapter.Profile.{
  PersistedMetadataReplayProfile, strict_profile, default_profile, truncate_tail_profile,
  to_replay_policy, from_replay_policy, PersistedMetadataReplayProfileResolution,
}
use ganglion.Adapter.Profile.Persisted.{
  PersistedMetadataNode, new_with_replay_policy, new_with_replay_profile, log_policy,
  log_policy_lem, new_with_replay_policy-policy,
}

module _ (codec : LineCodec) (file : FileState) (node_id : Str)
    (initial_snapshot : CoordinationSnapshot) where
  -- `PersistedMetadataNode::new`
  unfoldable pub new : Result NodeError PersistedMetadataNode
  unfolding new_with_replay_profile
  new = new_with_replay_profile codec file node_id initial_snapshot default_profile

  unfoldable pub new_strict : Result NodeError PersistedMetadataNode
  unfolding new_with_replay_profile
  new_strict = new_with_replay_profile codec file node_id initial_snapshot strict_profile

  unfoldable pub new_with_tail_replay_limit : ℕ → Result NodeError PersistedMetadataNode
  unfolding new_with_replay_profile
  new_with_tail_replay_limit max_tail_lines =
      new_with_replay_profile codec file node_id initial_snapshot
        (truncate_tail_profile max_tail_lines)

  unfoldable pub new_with_replay_profile_resolution :
      PersistedMetadataReplayProfileResolution → Result NodeError PersistedMetadataNode
  unfolding new_with_replay_profile
  new_with_replay_profile_resolution startup_profile =
      new_with_replay_profile codec file node_id initial_snapshot startup_profile.profile

  opens_leniently :
      (policy : FileMetadataReplayPolicy) (inner : MetadataNode FileState)
      → Node.new (file_log codec strict) node_id initial_snapshot file ≡ ok inner
      → Node.new (file_log codec policy) node_id initial_snapshot file ≡ ok inner
  unfolding Node.new Node.new_store
  opens_leniently policy inner h = elim (Result-cases (read_all_entries codec strict file.file)) [
    | inl (e, failed) ↦ absurd (ground arith)
    | inr (entries, reads) ↦
        let same = read_all_entries-strict codec policy file.file entries reads in ground arith
  ]

  opens_under :
      (policy : FileMetadataReplayPolicy) (node : PersistedMetadataNode)
      → new_with_replay_policy codec file node_id initial_snapshot policy ≡ ok node
      → Node.new (file_log codec policy) node_id initial_snapshot file ≡ ok node.inner
  opens_under policy node h =
      (new_with_replay_policy-policy codec file node_id initial_snapshot policy node h).0

  -- A node that opens on its file under the strict profile opens under every other, as the same
  -- node over the same file: the profiles differ only where the strict one refuses the file.
  pub new_strict-new_with_replay_profile :
      (node : PersistedMetadataNode) (profile : PersistedMetadataReplayProfile)
      → new_strict ≡ ok node
      → (other : PersistedMetadataNode) × (new_with_replay_profile codec file node_id
            initial_snapshot profile
          ≡ ok other)
        × (other.inner ≡ node.inner)
        × (other.replay_policy ≡ to_replay_policy profile)
  unfolding new_strict new_with_replay_profile new_with_replay_policy to_replay_policy
  new_strict-new_with_replay_profile node profile h =
      let policy = to_replay_policy profile in
      let strictly = opens_under strict node h in
      let leniently = opens_leniently (log_policy policy) node.inner strictly in
      (
        record {
          inner = node.inner;
          replay_policy = log_policy policy;
          startup_replay_profile = from_replay_policy policy;
        },
        ground arith,
        refl,
        log_policy_lem policy,
      )
