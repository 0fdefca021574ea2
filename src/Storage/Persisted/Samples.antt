-- ===== src/Storage/Persisted/Samples.antt =====
-- A sample of what `serde_json` does: a string is its characters plus one, up to a zero, and the
-- text of a resource starts with its partition. An entry is written when its snapshot has nothing but assignments without followers and a generation.
mod Texts
use mathlib.Core.Path.{subst}
use ganglion.Prelude.{
  ℕ, ◌≤◌, leb, u64_max, if◌then◌else◌, true, zero, suc, Option, none, some, false, List, [], ◌∷◌,
  ◌≡◌, refl, ap, arith, length, Option-cases, Bool-cases, inl, inr,
}
use ganglion.BTreeMap.{BTreeMap, BTreeSet}
use ganglion.Core.Model.{
  Str, ResourceIdentity, NodeInfo, ReplicationDurabilityPolicy, local_durable, PartitionAssignment,
}
use ganglion.Storage.FileLog.{is_skipped}
use ganglion.Storage.Persisted.{PersistedMetadataLogEntry, SerdeJson, Reads}
use ganglion.Storage.Persisted.Samples.Texts.{
  pack, and_parse, unpack, unpack-pack, number, group_text, parse_group, key_text, parse_key,
  parse_key-key_text,
}

abbrev print_assignment :
    Str → ResourceIdentity → Str → List Str → ℕ → ReplicationDurabilityPolicy → Str → Option Str
print_assignment key resource owner [] epoch local_durable rest =
    some (pack key (key_text resource (pack owner (epoch ∷ rest))))
print_assignment key resource owner _ epoch _ _ = none

abbrev print_assignments : BTreeMap Str PartitionAssignment → Option Str
print_assignments [] = some []
print_assignments ((key, a) ∷ m) = elim (print_assignments m) [
  | none ↦ none
  | some rest ↦ print_assignment key a.resource a.owner a.followers a.epoch a.durability rest
]

abbrev written_assignment : ResourceIdentity → Str → ℕ → PartitionAssignment
written_assignment resource owner epoch = record {
  resource = resource;
  owner = owner;
  followers = [];
  epoch = epoch;
  durability = local_durable;
}

abbrev keep_assignment :
    Str
    → ResourceIdentity
    → Str
    → ℕ
    → Option (BTreeMap Str PartitionAssignment)
    → Option (BTreeMap Str PartitionAssignment)
keep_assignment key resource owner epoch none = none
keep_assignment key resource owner epoch (some m) =
    some ((key, written_assignment resource owner epoch) ∷ m)

abbrev parse_assignments : ℕ → Str → Option (BTreeMap Str PartitionAssignment)
parse_assignments zero text = some []
parse_assignments (suc n) text = and_parse (unpack text) (λ key text.
    and_parse (parse_key text) (λ resource text. and_parse (unpack text) (λ owner text.
      and_parse (number text)
        (λ epoch text. keep_assignment key resource owner epoch (parse_assignments n text)))))

parse_assignments-print_assignments :
    (m : BTreeMap Str PartitionAssignment) (text : Str)
    → print_assignments m ≡ some text
    → parse_assignments (length m) text ≡ some m
parse_assignments-print_assignments [] text h = refl
parse_assignments-print_assignments ((key, a) ∷ m) text h =
    elim (Option-cases (print_assignments m)) [
      | inl unwritten ↦ absurd (ground arith)
      | inr (rest, written) ↦
          go a.resource a.owner a.followers a.epoch a.durability rest
            (parse_assignments-print_assignments m rest written) (ground arith)
    ]
  where
    go :
        (resource : ResourceIdentity) (owner : Str) (followers : List Str) (epoch : ℕ)
        (durability : ReplicationDurabilityPolicy) (rest : Str)
        → parse_assignments (length m) rest ≡ some m
        → print_assignment key resource owner followers epoch durability rest ≡ some text
        → parse_assignments (suc (length m)) text
          ≡ some (
              (
                key,
                record {
                  resource = resource;
                  owner = owner;
                  followers = followers;
                  epoch = epoch;
                  durability = durability;
                },
              )
              ∷ m)
    go resource owner [] epoch local_durable rest parsed e =
        let printed : pack key (key_text resource (pack owner (epoch ∷ rest))) ≡ text =
          ground arith in
        subst
          (λ t.
            parse_assignments (suc (length m)) t
            ≡ some ((key, written_assignment resource owner epoch) ∷ m))
          printed
          (rw
            (
              unpack-pack key (key_text resource (pack owner (epoch ∷ rest))),
              parse_key-key_text resource (pack owner (epoch ∷ rest)),
              unpack-pack owner (epoch ∷ rest),
            )
            (ap (keep_assignment key resource owner epoch) parsed))
    go _ _ _ _ _ _ parsed e = cc

abbrev print_fields :
    ℕ
    → ℕ
    → BTreeMap Str NodeInfo
    → BTreeSet ResourceIdentity
    → BTreeMap Str Str
    → ℕ
    → BTreeMap Str PartitionAssignment
    → Option Str
print_fields term index [] [] [] generation assignments = elim (print_assignments assignments) [
  | none ↦ none
  | some text ↦
      if leb index u64_max
      then some (123 ∷ term ∷ index ∷ generation ∷ length assignments ∷ text)
      else none
]
print_fields term index _ _ _ generation assignments = none

abbrev parse_entry : Str → Option PersistedMetadataLogEntry
parse_entry (brace ∷ term ∷ index ∷ generation ∷ count ∷ text) =
    elim (parse_assignments count text) [
      | none ↦ none
      | some assignments ↦
          if leb index u64_max
          then some (record {
            term = term;
            index = index;
            snapshot = record {
              nodes = [];
              assignments = assignments;
              resources = [];
              attributes = [];
              generation = generation;
            };
          })
          else none
    ]
parse_entry _ = none

abbrev first : Option (ResourceIdentity × Str) → Option ResourceIdentity
first none = none
first (some (r, rest)) = some r

abbrev pub serde : SerdeJson
serde = record {
  key_to_string = λ r. some (key_text r []);
  key_from_str = λ text. first (parse_key text);
  entry_to_string = λ e.
      print_fields e.term e.index e.snapshot.nodes e.snapshot.resources e.snapshot.attributes
        e.snapshot.generation e.snapshot.assignments;
  entry_from_str = parse_entry;
  trim = λ line. line;
  valid_utf8 = λ line. true;
}

reads_fields :
    (term index : ℕ) (nodes : BTreeMap Str NodeInfo) (resources : BTreeSet ResourceIdentity)
    (attributes : BTreeMap Str Str) (generation : ℕ) (m : BTreeMap Str PartitionAssignment)
    (line : Str)
    → print_fields term index nodes resources attributes generation m ≡ some line
    → (is_skipped line ≡ false)
      × (parse_entry line
          ≡ some (record {
            term = term;
            index = index;
            snapshot = record {
              nodes = nodes;
              assignments = m;
              resources = resources;
              attributes = attributes;
              generation = generation;
            };
          }))
reads_fields term index [] [] [] generation m line h = elim (Option-cases (print_assignments m)) [
  | inl unwritten ↦ absurd (ground arith)
  | inr (text, written) ↦
      let parsed = parse_assignments-print_assignments m text written in
      (ground arith, ground arith)
]
reads_fields _ _ _ _ _ _ _ _ h = cc

reads_words :
    (line : Str) (e : PersistedMetadataLogEntry) → parse_entry line ≡ some e → e.index ≤ u64_max
reads_words [] e h = cc
reads_words (_ ∷ []) e h = cc
reads_words (_ ∷ _ ∷ []) e h = cc
reads_words (_ ∷ _ ∷ _ ∷ []) e h = cc
reads_words (_ ∷ _ ∷ _ ∷ _ ∷ []) e h = cc
reads_words (brace ∷ term ∷ index ∷ generation ∷ count ∷ text) e h =
    elim (Option-cases (parse_assignments count text)) [
      | inl malformed ↦ absurd (ground arith)
      | inr (assignments, parsed) ↦ elim (Bool-cases (leb index u64_max)) [
        | inr large ↦ absurd (ground arith)
        | inl small ↦
            let same : index ≡ e.index = ground arith in
            subst (λ i. i ≤ u64_max) same (ground arith)
      ]
    ]

pub serde-Reads : Reads serde
serde-Reads = record {
  keys = λ r. (key_text r [], refl, ap first (parse_key-key_text r []));
  entries = λ e line h.
      let (kept, read) =
        reads_fields e.term e.index e.snapshot.nodes e.snapshot.resources e.snapshot.attributes
          e.snapshot.generation e.snapshot.assignments line h in
      (refl, refl, kept, read);
  words = reads_words;
}

abbrev pub resource : ℕ → ℕ → ResourceIdentity
resource namespace partition = record {
  namespace = namespace ∷ [];
  name = [];
  partition = partition;
  group = none;
}

abbrev pub assignment : ℕ → ℕ → PartitionAssignment
assignment namespace partition = record {
  resource = resource namespace partition;
  owner = 7 ∷ [];
  followers = [];
  epoch = 1;
  durability = local_durable;
}
