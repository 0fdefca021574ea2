-- ===== src/RaftNode/Tests.antt =====
-- The results of a raft node at sample data.
use ganglion.Prelude.{
  err, List, Option, some, same, ℕ, zero, suc, none, true, false, [], ◌∷◌, ◌++◌, last?, ◌≡◌, ◌≢◌,
  ◌⊎◌, nat_ord, list_ord, refl, arith, All, ok,
}
use ganglion.BTreeMap.{get}
use ganglion.Core.Model.{CoordinationSnapshot, default_snapshot}
use ganglion.Openraft.Command.{MetadataRaftCommand, set_attribute, MetadataRaftResponse}
use ganglion.Openraft.StateMachine.Topology.{CarriesOrdered}
use ganglion.RaftNode.{
  committed, submit_command, apply_all, Attempt, lost_race, plan_and_propose_guarded,
}
use ganglion.Openraft.Command.{LogId, normal, membership, Entry}
use ganglion.Openraft.Machine.{GanglionStateMachine, apply}
use ganglion.RaftNode.{rejection_error}
use ganglion.RaftNode.Replicated.{commands_in, submit_command-apply}
use ganglion.Adapter.Error.{attribute_mismatch}
use ganglion.RaftNode.Merges.{
  Written, compare_and_set_attribute, compare_and_set_attribute-committed,
}
use ganglion.RaftNode.WatchLeader.{
  changed, metrics_closed, forward_leader, Changing, last_or, forward_leader-Changing,
}
use ganglion.RaftNode.Rivals.{IsMerge}
use ganglion.RaftNode.Propose.{lost_race-plan_and_propose_guarded}

abbrev plan : CoordinationSnapshot → CoordinationSnapshot
plan s = record s { attributes = [] }

abbrev rival : MetadataRaftCommand
rival = set_attribute (1 ∷ []) (2 ∷ [])

-- The first attempt has a rival, those after it have none.
abbrev env : ℕ → Attempt
env zero = record { before = []; between = rival ∷ []; write = committed }
env (suc n) = record { before = []; between = []; write = committed }

before : (i : ℕ) → All CarriesOrdered (env i).before
before zero = tt
before (suc i) = tt

between : (i : ℕ) → All IsMerge (env i).between
between zero = ((refl, tt), tt)
between (suc i) = tt

abbrev planned : CoordinationSnapshot
planned = record default_snapshot { generation = 2 }

abbrev response : MetadataRaftResponse
response = record { accepted = true; rejection = none; snapshot = planned }

lost_race-plan_and_propose_guarded_example :
    lost_race (plan_and_propose_guarded plan env 3 0 default_snapshot).0 ≡ false
lost_race-plan_and_propose_guarded_example =
    lost_race-plan_and_propose_guarded plan env 3 0 1 default_snapshot (omega arith) refl

-- A machine with nothing applied, whose memberships are numbers.
abbrev machine : GanglionStateMachine ℕ ℕ
machine = record {
  inner = record {
    last_applied = none;
    last_membership = 0;
    state = default_snapshot;
    snapshot_idx = 0;
    current_snapshot = none;
  };
  published = default_snapshot;
  has_path = false;
  disk = none;
  snapshot_persists = 0;
  snapshot_loads = 0;
}

abbrev at_index : ℕ → LogId ℕ
at_index index = record { leader_id = 1; index = index }

abbrev entries : List (Entry ℕ ℕ)
entries =
    record { log_id = at_index 1; payload = membership 5 }
    ∷ record { log_id = at_index 2; payload = normal rival }
    ∷ []

abbrev stored : Option (LogId ℕ) → ℕ → ℕ
stored log_id m = m

submit_command-apply_example :
    let (after, replies) =
      apply stored machine
        (entries ++ record { log_id = at_index 3; payload = normal rival } ∷ []) in
    let (result, state) =
      submit_command (apply_all machine.inner.state (commands_in entries)) rival committed in
    (after.inner.state ≡ state)
    × ((reply : MetadataRaftResponse) × ((last? replies ≡ some reply)
          × (result ≡ (elim reply.rejection [
            | none ↦ ok reply
            | some rejection ↦ err (rejection_error rejection)
          ]))))
submit_command-apply_example = submit_command-apply stored machine entries (at_index 3) rival

-- Whoever sets a lock that is free, once, finds it set by the other.
compare_and_set_attribute-committed_example :
    let (result, after) =
      compare_and_set_attribute default_snapshot (1 ∷ []) none (2 ∷ []) committed in
    ((((reply : MetadataRaftResponse) × (result ≡ ok reply) × (reply.snapshot ≡ after))
        × ((get (1 ∷ []) default_snapshot.attributes ≡ none)
            × Written default_snapshot (1 ∷ []) (2 ∷ []) after))
      ⊎ ((result ≡ err (attribute_mismatch (1 ∷ []) (get (1 ∷ []) default_snapshot.attributes)))
          × ((after ≡ default_snapshot) × (get (1 ∷ []) default_snapshot.attributes ≢ none))))
compare_and_set_attribute-committed_example =
    compare_and_set_attribute-committed default_snapshot (1 ∷ []) none (2 ∷ [])

-- Raft elects 1, repeats it, loses it, and elects 2.
forward_leader-Changing_example :
    let (told, last) = forward_leader none (
      changed (some 1)
      ∷ changed (some 1)
      ∷ changed none
      ∷ changed (some 2)
      ∷ metrics_closed
      ∷ []) in
    Changing none told × (last_or none told ≡ last) × (last ≡ some 2)
forward_leader-Changing_example =
    forward_leader-Changing none
      (changed (some 1) ∷ changed (some 1) ∷ changed none ∷ changed (some 2) ∷ metrics_closed ∷ [])

leaders_told :
    (forward_leader none (changed (some 1) ∷ changed (some 1) ∷ changed none ∷ [])).0
    ≡ some 1 ∷ none ∷ []
unfolding forward_leader same
leaders_told = refl
