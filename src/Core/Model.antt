-- ===== src/Core/Model.antt =====
-- The metadata model of `crates/ganglion-core/src/lib.rs`. A `String` is its bytes, which is how
-- Rust compares it; `Shared` is copy-on-write and is not seen by values.
use mathlib.Core.Path.{ap}
use ganglion.Prelude.{
  ℕ, ◌+◌, Option, List, [], length, ◌≡◌, Bool, Eq, ◌==◌, Ord, IsTotal, eq_of, cmp_by,
  cmp_by-IsTotal, nat_ord, list_ord, option_ord, pair_ord, contains, filter,
}
use ganglion.BTreeMap.{BTreeMap, BTreeSet, get, values}

abbrev pub Str : Type 0
Str = List ℕ

instance abbrev pub str_eq : Eq Str
str_eq = eq_of

pub record ResourceIdentity : Type 0 where
  pub namespace : Str
  pub name : Str
  pub partition : ℕ
  pub group : Option Str

-- The fields in the order in which the derived `Ord` compares them.
abbrev pub fields : ResourceIdentity → Str × (Str × (ℕ × Option Str))
fields r = (r.namespace, (r.name, (r.partition, r.group)))

fields-injective : (a b : ResourceIdentity) → fields a ≡ fields b → a ≡ b
fields-injective a b h = ap of_fields h
  where
    of_fields : Str × (Str × (ℕ × Option Str)) → ResourceIdentity
    of_fields t = record { namespace = t.0; name = t.1.0; partition = t.1.1.0; group = t.1.1.1 }

pub ResourceIdentity-IsTotal : IsTotal (cmp_by fields)
ResourceIdentity-IsTotal = cmp_by-IsTotal fields fields-injective

instance abbrev pub resource_ord : Ord ResourceIdentity
resource_ord = record { cmp = cmp_by fields; total = ResourceIdentity-IsTotal }

instance abbrev pub resource_eq : Eq ResourceIdentity
resource_eq = eq_of

pub record NodeInfo : Type 0 where
  pub node_id : Str
  pub endpoint : Str
  pub admin_endpoint : Option Str
  pub labels : BTreeMap Str Str

-- The order serves the structural equality of `NodeInfo` alone.
abbrev node_fields : NodeInfo → Str × (Str × (Option Str × List (Str × Str)))
node_fields n = (n.node_id, (n.endpoint, (n.admin_endpoint, n.labels)))

node_fields-injective : (a b : NodeInfo) → node_fields a ≡ node_fields b → a ≡ b
node_fields-injective a b h = ap of_fields h
  where
    of_fields : Str × (Str × (Option Str × List (Str × Str))) → NodeInfo
    of_fields t = record {
      node_id = t.0;
      endpoint = t.1.0;
      admin_endpoint = t.1.1.0;
      labels = t.1.1.1;
    }

pub NodeInfo-IsTotal : IsTotal (cmp_by node_fields)
NodeInfo-IsTotal = cmp_by-IsTotal node_fields node_fields-injective

instance abbrev pub node_eq : Eq NodeInfo
node_eq = eq_of ⦃o = record { cmp = cmp_by node_fields; total = NodeInfo-IsTotal }⦄

instance abbrev pub option_str_eq : Eq (Option Str)
option_str_eq = eq_of

pub data ReplicationDurabilityPolicy : Type 0 where
  local_durable : ReplicationDurabilityPolicy
  replica_accepted : ℕ → ReplicationDurabilityPolicy
  replica_durable : ℕ → ReplicationDurabilityPolicy
  majority_durable : ReplicationDurabilityPolicy

pub record PartitionAssignment : Type 0 where
  pub resource : ResourceIdentity
  pub owner : Str
  pub followers : List Str
  pub epoch : ℕ
  pub durability : ReplicationDurabilityPolicy

unfoldable pub is_owned_by : PartitionAssignment → Str → Bool
is_owned_by a node_id = a.owner == node_id

unfoldable pub is_followed_by : PartitionAssignment → Str → Bool
is_followed_by a node_id = contains a.followers node_id

unfoldable pub replica_set_size : PartitionAssignment → ℕ
replica_set_size a = 1 + length a.followers

pub record CoordinationSnapshot : Type 0 where
  pub nodes : BTreeMap Str NodeInfo
  pub assignments : BTreeMap ResourceIdentity PartitionAssignment
  pub resources : BTreeSet ResourceIdentity
  pub attributes : BTreeMap Str Str
  pub generation : ℕ

-- `CoordinationSnapshot::default()`
abbrev pub default_snapshot : CoordinationSnapshot
default_snapshot = record {
  nodes = [];
  assignments = [];
  resources = [];
  attributes = [];
  generation = 0;
}

unfoldable pub assignment_for : CoordinationSnapshot → ResourceIdentity → Option PartitionAssignment
assignment_for s resource = get resource s.assignments

unfoldable owned_by : CoordinationSnapshot → Str → List PartitionAssignment
unfolding is_owned_by
owned_by s node_id = filter (λ a. is_owned_by a node_id) (values s.assignments)

unfoldable followed_by : CoordinationSnapshot → Str → List PartitionAssignment
unfolding is_followed_by
followed_by s node_id = filter (λ a. is_followed_by a node_id) (values s.assignments)
