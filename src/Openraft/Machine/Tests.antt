-- ===== src/Openraft/Machine/Tests.antt =====
-- The results of the state machine at sample data.
use ganglion.Prelude.{same, ℕ, Option, some, none, true, [], ◌∷◌, ◌≡◌, refl, ok, err}
use ganglion.Core.Model.{Str, default_snapshot}
use ganglion.BTreeMap.{get, insert}
use ganglion.Openraft.StateMachine.{apply_command}
use ganglion.Openraft.Command.{LogId, Entry, normal, membership, set_attribute}
use ganglion.Openraft.Machine.{
  DiskWrite, synced, fails_after_rename, write_snapshot, StoredSnapshot, GanglionStateMachine,
  apply,
}
use ganglion.Openraft.Machine.Snapshots.{pack_snapshot, build_snapshot}
use ganglion.Openraft.Machine.Published.{IsPublished, apply-IsPublished}
use ganglion.Openraft.Machine.Keyed.{read_committed_at, Run, here, built, read_committed_at-Run}
use ganglion.Openraft.Samples.{state_codec, stored_codec}

abbrev at_index : ℕ → LogId ℕ
at_index index = record { leader_id = 1; index = index }

abbrev put : Entry ℕ ℕ
put = record { log_id = at_index 6; payload = normal (set_attribute (107 ∷ []) (49 ∷ [])) }

abbrev joined : Entry ℕ ℕ
joined = record { log_id = at_index 7; payload = membership 3 }

abbrev members_of : Option (LogId ℕ) → ℕ → ℕ
members_of at members = members

abbrev machine : GanglionStateMachine ℕ ℕ
machine = record {
  inner = record {
    last_applied = some (at_index 5);
    last_membership = 2;
    state = record default_snapshot { generation = 4 };
    snapshot_idx = 0;
    current_snapshot = none;
  };
  published = record default_snapshot { generation = 4 };
  has_path = true;
  disk = none;
  snapshot_persists = 0;
  snapshot_loads = 0;
}

machine-IsPublished : IsPublished machine
machine-IsPublished = record {
  ordered = record { nodes = tt; assignments = tt; resources = tt; attributes = tt };
  view = refl;
}

apply-IsPublished_example : IsPublished (apply members_of machine (put ∷ joined ∷ [])).0
apply-IsPublished_example =
    apply-IsPublished members_of machine (put ∷ joined ∷ []) machine-IsPublished (tt, (tt, tt))

abbrev no_name : Option (LogId ℕ) → ℕ → Str
no_name at idx = []

abbrev stored : StoredSnapshot ℕ ℕ
stored = pack_snapshot no_name machine.inner (4 ∷ [])

abbrev after_build : DiskWrite → GanglionStateMachine ℕ ℕ
after_build write = (build_snapshot stored_codec state_codec no_name write machine).1

build_synced :
    build_snapshot stored_codec state_codec no_name synced machine ≡ (ok stored, after_build synced)
unfolding build_snapshot
build_synced = refl

build_unsynced :
    build_snapshot stored_codec state_codec no_name fails_after_rename machine
    ≡ (err write_snapshot, after_build fails_after_rename)
unfolding build_snapshot
build_unsynced = refl

abbrev later : GanglionStateMachine ℕ ℕ
later = (apply members_of machine (put ∷ joined ∷ [])).0

rebuilt :
    Run members_of stored_codec state_codec no_name later
      (build_snapshot stored_codec state_codec no_name synced later).1
rebuilt = built here synced

same_id :
    read_committed_at later (λ id state. id)
    ≡ read_committed_at
        (build_snapshot stored_codec state_codec no_name synced later).1
        (λ id state. id)
unfolding read_committed_at build_snapshot apply apply_command same get insert
same_id = refl

read_committed_at-Run_example :
    read_committed_at later (λ id state. state)
    ≡ read_committed_at
        (build_snapshot stored_codec state_codec no_name synced later).1
        (λ id state. state)
read_committed_at-Run_example =
    read_committed_at-Run members_of stored_codec state_codec no_name rebuilt same_id
