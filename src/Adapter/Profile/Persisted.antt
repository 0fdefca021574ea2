-- ===== src/Adapter/Profile/Persisted.antt =====
-- `PersistedMetadataNode` of `crates/ganglion-openraft/src/lib.rs`: how it is opened. The calls on
-- an open node are those of the node inside it.
use mathlib.Core.Path.{subst}
use ganglion.Prelude.{Option, ◌≡◌, refl, ap, arith, Result, ok, err, Result-cases, inl, inr}
use ganglion.Core.Model.{Str, CoordinationSnapshot}
use ganglion.Storage.FileLog.{FileMetadataReplayPolicy, strict, truncate_tail, LineCodec}
use ganglion.Adapter.Log.{FileState, file_log}
use ganglion.Adapter.Node.{MetadataNode, NodeError, new}
use ganglion.Adapter.Profile.{
  PersistedMetadataReplayProfile, to_replay_policy, from_replay_policy,
  PersistedMetadataReplayProfileResolution, EnvVar, from_explicit_or_env, from_env_or_default,
}

-- `replay_policy` is the policy of the log inside the node.
pub record PersistedMetadataNode : Type 0 where
  pub inner : MetadataNode FileState
  pub replay_policy : FileMetadataReplayPolicy
  pub startup_replay_profile : PersistedMetadataReplayProfile

-- The policy of the log that the `match` in `new_with_replay_policy` makes: `FileMetadataLog::new`
-- is strict.
unfoldable pub log_policy : FileMetadataReplayPolicy → FileMetadataReplayPolicy
unfolding to_replay_policy from_replay_policy
log_policy replay_policy = elim (to_replay_policy (from_replay_policy replay_policy)) [
  | strict ↦ strict
  | truncate_tail _ ↦ replay_policy
]

module _ (codec : LineCodec) where
  unfoldable pub new_with_replay_policy :
      FileState
      → Str
      → CoordinationSnapshot
      → FileMetadataReplayPolicy
      → Result NodeError PersistedMetadataNode
  unfolding log_policy from_replay_policy
  new_with_replay_policy file node_id initial_snapshot replay_policy =
      let replay_profile = from_replay_policy replay_policy in
      let policy = log_policy replay_policy in
      elim (new (file_log codec policy) node_id initial_snapshot file) [
        | err e ↦ err e
        | ok inner ↦ ok (record {
          inner = inner;
          replay_policy = policy;
          startup_replay_profile = replay_profile;
        })
      ]

  unfoldable pub new_with_replay_profile :
      FileState
      → Str
      → CoordinationSnapshot
      → PersistedMetadataReplayProfile
      → Result NodeError PersistedMetadataNode
  unfolding new_with_replay_policy
  new_with_replay_profile file node_id initial_snapshot replay_profile =
      new_with_replay_policy file node_id initial_snapshot (to_replay_policy replay_profile)

  unfoldable pub new_with_replay_profile_str :
      FileState
      → Str
      → CoordinationSnapshot
      → (Str → Str)
      → EnvVar
      → Option Str
      → Result NodeError (PersistedMetadataNode × PersistedMetadataReplayProfileResolution)
  unfolding new_with_replay_profile
  new_with_replay_profile_str file node_id initial_snapshot trim env raw_profile =
      elim (from_explicit_or_env trim raw_profile env) [
        | err e ↦ err e
        | ok resolved ↦
            elim (new_with_replay_profile file node_id initial_snapshot resolved.profile) [
              | err e ↦ err e
              | ok node ↦ ok (node, resolved)
            ]
      ]

  unfoldable new_with_profile_env :
      FileState
      → Str
      → CoordinationSnapshot
      → (Str → Str)
      → EnvVar
      → Result NodeError PersistedMetadataNode
  unfolding new_with_replay_profile
  new_with_profile_env file node_id initial_snapshot trim env =
      elim (from_env_or_default trim env) [
        | err e ↦ err e
        | ok resolved ↦ new_with_replay_profile file node_id initial_snapshot resolved.profile
      ]

-- `startup_replay_policy`
pub startup_replay_policy : PersistedMetadataNode → FileMetadataReplayPolicy
unfolding to_replay_policy
startup_replay_policy node = to_replay_policy node.startup_replay_profile

-- A policy survives the profile it is kept as.
to_replay_policy-from_replay_policy :
    (policy : FileMetadataReplayPolicy) → to_replay_policy (from_replay_policy policy) ≡ policy
unfolding to_replay_policy from_replay_policy
to_replay_policy-from_replay_policy strict = refl
to_replay_policy-from_replay_policy (truncate_tail n) = ground arith

pub log_policy_lem : (policy : FileMetadataReplayPolicy) → log_policy policy ≡ policy
unfolding log_policy to_replay_policy from_replay_policy
log_policy_lem strict = refl
log_policy_lem (truncate_tail n) = ground arith

pub new_with_replay_policy-policy :
    (codec : LineCodec) (file : FileState) (node_id : Str) (initial : CoordinationSnapshot)
    (policy : FileMetadataReplayPolicy) (node : PersistedMetadataNode)
    → new_with_replay_policy codec file node_id initial policy ≡ ok node
    → (new (file_log codec policy) node_id initial file ≡ ok node.inner)
      × ((node.replay_policy ≡ policy) × (startup_replay_policy node ≡ policy))
unfolding new_with_replay_policy startup_replay_policy
new_with_replay_policy-policy codec file node_id initial policy node h =
    let kept = log_policy_lem policy in
    let reported = to_replay_policy-from_replay_policy policy in
    let opened = ap (λ p. new (file_log codec p) node_id initial file) kept in
    elim (Result-cases (new (file_log codec (log_policy policy)) node_id initial file)) [
      | inl (e, failed) ↦ absurd (ground arith)
      | inr (inner, opens) ↦ ground arith
    ]

-- A node that is opened from a text or the environment reads its file under the policy of the
-- profile that was resolved, reports that policy, and is the node that the log under that policy
-- opens.
new_with_replay_profile_str-policy :
    (codec : LineCodec) (file : FileState) (node_id : Str) (initial : CoordinationSnapshot)
    (trim : Str → Str) (env : EnvVar) (raw : Option Str) (node : PersistedMetadataNode)
    (resolved : PersistedMetadataReplayProfileResolution)
    → new_with_replay_profile_str codec file node_id initial trim env raw ≡ ok (node, resolved)
    → ((from_explicit_or_env trim raw env ≡ ok resolved)
        × (new (file_log codec (to_replay_policy resolved.profile)) node_id initial file
            ≡ ok node.inner))
      × ((node.replay_policy ≡ to_replay_policy resolved.profile)
          × (startup_replay_policy node ≡ to_replay_policy resolved.profile))
unfolding new_with_replay_profile_str new_with_replay_profile
new_with_replay_profile_str-policy codec file node_id initial trim env raw node resolved h =
    elim (Result-cases (from_explicit_or_env trim raw env)) [
      | inl (e, failed) ↦ absurd (ground arith)
      | inr (r, resolves) ↦
          let policy = to_replay_policy r.profile in
          elim (Result-cases (new_with_replay_policy codec file node_id initial policy)) [
            | inl (e, failed) ↦ absurd (ground arith)
            | inr (opened, opens) ↦
                let same_node : opened ≡ node = ground arith in
                let same_profile : r ≡ resolved = ground arith in
                let found =
                  new_with_replay_policy-policy codec file node_id initial policy opened opens in
                let inner =
                  subst
                    (λ p.
                      new (file_log codec (to_replay_policy p.profile)) node_id initial file
                      ≡ ok opened.inner)
                    same_profile found.0 in
                ground arith
          ]
    ]
