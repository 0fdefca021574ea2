-- ===== src/Openraft/Samples.antt =====
-- Sample codecs and data for the tests of the openraft adapter. Leader ids, votes, memberships and
-- stored memberships are numbers here, and a codec writes only the values that the tests need.
use ganglion.Prelude.{ℕ, Option, some, none, Bool, true, false, [], ◌∷◌, ◌≡◌, ◌≢◌, arith, zero, suc}
use ganglion.BTreeMap.{BTreeMap, BTreeSet}
use ganglion.Core.Model.{
  Str, ResourceIdentity, NodeInfo, PartitionAssignment, CoordinationSnapshot, default_snapshot,
}
use ganglion.Openraft.Command.{LogId, EntryPayload, blank, normal, membership}
use ganglion.Openraft.Wal.{WalRecord}
use ganglion.Openraft.Machine.{Bytes, Codec, RoundTrips, StoredSnapshot}

abbrev encode_state :
    BTreeMap Str NodeInfo
    → BTreeMap ResourceIdentity PartitionAssignment
    → BTreeSet ResourceIdentity
    → BTreeMap Str Str
    → ℕ
    → Option Bytes
encode_state [] [] [] [] generation = some (generation ∷ [])
encode_state _ _ _ _ generation = none

abbrev decode_state : Bytes → Option CoordinationSnapshot
decode_state (generation ∷ []) = some (record default_snapshot { generation = generation })
decode_state _ = none

abbrev pub state_codec : Codec CoordinationSnapshot
state_codec = record {
  to_vec = λ s. encode_state s.nodes s.assignments s.resources s.attributes s.generation;
  from_slice = decode_state;
}

encode_state-decode_state :
    (n : BTreeMap Str NodeInfo) (a : BTreeMap ResourceIdentity PartitionAssignment)
    (r : BTreeSet ResourceIdentity) (t : BTreeMap Str Str) (g : ℕ) (bytes : Bytes)
    → encode_state n a r t g ≡ some bytes
    → decode_state bytes
      ≡ some (record { nodes = n; assignments = a; resources = r; attributes = t; generation = g })
encode_state-decode_state [] [] [] [] g bytes h = ground arith
encode_state-decode_state _ _ _ _ g bytes h = cc

pub state_codec-RoundTrips : RoundTrips state_codec
state_codec-RoundTrips s bytes h =
    encode_state-decode_state s.nodes s.assignments s.resources s.attributes s.generation bytes h

encode_state_nonempty :
    (n : BTreeMap Str NodeInfo) (a : BTreeMap ResourceIdentity PartitionAssignment)
    (r : BTreeSet ResourceIdentity) (t : BTreeMap Str Str) (g : ℕ)
    → encode_state n a r t g ≢ some []
encode_state_nonempty [] [] [] [] g = λ h. cc
encode_state_nonempty _ _ _ _ g = λ h. cc

pub state_codec_nonempty : (s : CoordinationSnapshot) → state_codec.to_vec s ≡ some [] → ⊥
state_codec_nonempty s h =
    encode_state_nonempty s.nodes s.assignments s.resources s.attributes s.generation h

abbrev encode_stored : Str → Option (LogId ℕ) → ℕ → Bytes → Option Bytes
encode_stored [] none members bytes = some (0 ∷ 0 ∷ 0 ∷ members ∷ bytes)
encode_stored [] (some l) members bytes = some (1 ∷ l.leader_id ∷ l.index ∷ members ∷ bytes)
encode_stored (_ ∷ _) last members bytes = none

abbrev decode_stored : Bytes → Option (StoredSnapshot ℕ ℕ)
decode_stored (tag ∷ leader ∷ index ∷ members ∷ bytes) = some (record {
  meta = record {
    last_log_id = elim tag as (λ _. Option (LogId ℕ)) [
      | zero ↦ none
      | suc _ ↦ some (record { leader_id = leader; index = index })
    ];
    last_membership = members;
    snapshot_id = [];
  };
  bytes = bytes;
})
decode_stored _ = none

abbrev pub stored_codec : Codec (StoredSnapshot ℕ ℕ)
stored_codec = record {
  to_vec = λ s. encode_stored s.meta.snapshot_id s.meta.last_log_id s.meta.last_membership s.bytes;
  from_slice = decode_stored;
}

encode_stored-decode_stored :
    (id : Str) (last : Option (LogId ℕ)) (members : ℕ) (content bytes : Bytes)
    → encode_stored id last members content ≡ some bytes
    → decode_stored bytes
      ≡ some (record {
        meta = record { last_log_id = last; last_membership = members; snapshot_id = id };
        bytes = content;
      })
encode_stored-decode_stored [] none members content bytes h = ground arith
encode_stored-decode_stored [] (some l) members content bytes h = ground arith
encode_stored-decode_stored (_ ∷ _) last members content bytes h = cc

pub stored_codec-RoundTrips : RoundTrips stored_codec
stored_codec-RoundTrips s bytes h =
    encode_stored-decode_stored s.meta.snapshot_id s.meta.last_log_id s.meta.last_membership s.bytes
      bytes h

abbrev encode_entry : LogId ℕ → EntryPayload ℕ → Option Bytes
encode_entry id blank = some (id.leader_id ∷ id.index ∷ 0 ∷ 0 ∷ [])
encode_entry id (membership m) = some (id.leader_id ∷ id.index ∷ m ∷ 0 ∷ 0 ∷ [])
encode_entry id (normal command) = none

abbrev encode_wal : WalRecord ℕ ℕ ℕ → Option Bytes
encode_wal (WalRecord.vote v) = some (v ∷ [])
encode_wal (WalRecord.truncate since) = some (since ∷ 0 ∷ [])
encode_wal (WalRecord.purge upto) = some (upto.leader_id ∷ upto.index ∷ 0 ∷ [])
encode_wal (WalRecord.entry e) = encode_entry e.log_id e.payload

abbrev decode_wal : Bytes → Option (WalRecord ℕ ℕ ℕ)
decode_wal (v ∷ []) = some (WalRecord.vote v)
decode_wal (since ∷ _ ∷ []) = some (WalRecord.truncate since)
decode_wal (leader ∷ index ∷ _ ∷ []) =
    some (WalRecord.purge (record { leader_id = leader; index = index }))
decode_wal (leader ∷ index ∷ _ ∷ _ ∷ []) = some (
    WalRecord.entry
      (record { log_id = record { leader_id = leader; index = index }; payload = blank }))
decode_wal (leader ∷ index ∷ m ∷ _ ∷ _ ∷ []) = some (
    WalRecord.entry
      (record { log_id = record { leader_id = leader; index = index }; payload = membership m }))
decode_wal _ = none

abbrev pub wal_codec : Codec (WalRecord ℕ ℕ ℕ)
wal_codec = record { to_vec = encode_wal; from_slice = decode_wal }

encode_entry-decode_wal :
    (id : LogId ℕ) (payload : EntryPayload ℕ) (bytes : Bytes)
    → encode_entry id payload ≡ some bytes
    → decode_wal bytes ≡ some (WalRecord.entry (record { log_id = id; payload = payload }))
encode_entry-decode_wal id blank bytes h = ground arith
encode_entry-decode_wal id (membership m) bytes h = ground arith
encode_entry-decode_wal id (normal command) bytes h = cc

pub wal_codec-RoundTrips : RoundTrips wal_codec
wal_codec-RoundTrips (WalRecord.vote v) bytes h = ground arith
wal_codec-RoundTrips (WalRecord.truncate since) bytes h = ground arith
wal_codec-RoundTrips (WalRecord.purge upto) bytes h = ground arith
wal_codec-RoundTrips (WalRecord.entry e) bytes h =
    encode_entry-decode_wal e.log_id e.payload bytes h

abbrev pub is_blank : Bytes → Bool
is_blank [] = true
is_blank (_ ∷ _) = false

encode_entry_visible :
    (id : LogId ℕ) (payload : EntryPayload ℕ) (line : Bytes)
    → encode_entry id payload ≡ some line
    → is_blank line ≡ false
encode_entry_visible id blank line h = ground arith
encode_entry_visible id (membership m) line h = ground arith
encode_entry_visible id (normal command) line h = cc

pub wal_codec_visible :
    (r : WalRecord ℕ ℕ ℕ) (line : Bytes) → wal_codec.to_vec r ≡ some line → is_blank line ≡ false
wal_codec_visible (WalRecord.vote v) line h = ground arith
wal_codec_visible (WalRecord.truncate since) line h = ground arith
wal_codec_visible (WalRecord.purge upto) line h = ground arith
wal_codec_visible (WalRecord.entry e) line h = encode_entry_visible e.log_id e.payload line h
