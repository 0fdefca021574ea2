-- ===== src/RaftNode/Merges.antt =====
-- The commands that `RaftMetadataNode` of `crates/ganglion-openraft/src/openraft_runtime/node.rs`
-- merges into the committed snapshot, one method for each.
use mathlib.Core.Path.{subst}
use ganglion.Prelude.{
  Option, none, some, sym, true, ◌==◌, Bool-cases, inl, inr, refl, wrapping_add, ◌⊎◌, ◌≡◌, ◌≢◌,
  arith, Result, ok, err, list_ord, nat_ord, option_ord,
}
use ganglion.BTreeMap.{get, insert}
use ganglion.BTreeMap.Sorted.{get-insert_self, get-insert_ne}
use ganglion.Core.Model.{Str, option_str_eq, CoordinationSnapshot, ResourceIdentity, NodeInfo}
use ganglion.Adapter.Error.{attribute_mismatch}
use ganglion.Openraft.Command.{MetadataRaftCommand, MetadataRaftResponse}
use ganglion.Openraft.Command as Command
use ganglion.Openraft.StateMachine.{apply_command, compare_and_set, write_attribute}
use ganglion.RaftNode.{RaftNodeError, WriteOutcome, committed, submit_command}

-- A call on a committed snapshot: its result and the snapshot that it leaves.
abbrev Merge : Type 0
Merge = WriteOutcome → Result RaftNodeError MetadataRaftResponse × CoordinationSnapshot

module _ (s : CoordinationSnapshot) where
  abbrev submit_merge : MetadataRaftCommand → Merge
  submit_merge command = submit_command s command

  abbrev pub register_node : NodeInfo → Merge
  register_node node = submit_command s (Command.register_node node)

  abbrev pub deregister_node : Str → Merge
  deregister_node node_id = submit_command s (Command.deregister_node node_id)

  abbrev pub register_resource : ResourceIdentity → Merge
  register_resource resource = submit_command s (Command.register_resource resource)

  abbrev pub deregister_resource : ResourceIdentity → Merge
  deregister_resource resource = submit_command s (Command.deregister_resource resource)

  abbrev pub set_attribute : Str → Str → Merge
  set_attribute key value = submit_command s (Command.set_attribute key value)

  abbrev pub compare_and_set_attribute : Str → Option Str → Str → Merge
  compare_and_set_attribute key expected value =
      submit_command s (Command.compare_and_set_attribute key expected value)

  abbrev pub remove_attribute : Str → Merge
  remove_attribute key = submit_command s (Command.remove_attribute key)

-- A state with a value written to an attribute: the attribute has it, every other attribute is as it
-- was, so are the nodes, assignments and resources, and the generation is one on, or as it was where
-- the attribute had the value.
abbrev pub Written : CoordinationSnapshot → Str → Str → CoordinationSnapshot → Type 0
Written s key value after =
    ((get key after.attributes ≡ some value)
      × ((other : Str) → other ≢ key → get other after.attributes ≡ get other s.attributes))
    × (((after.nodes ≡ s.nodes) × (after.assignments ≡ s.assignments))
        × ((after.resources ≡ s.resources)
            × (((get key s.attributes ≡ some value) × (after.generation ≡ s.generation))
                ⊎ ((get key s.attributes ≢ some value)
                    × (after.generation ≡ wrapping_add s.generation 1)))))

write_attribute-Written :
    (s : CoordinationSnapshot) (key value : Str)
    → Written s key value (write_attribute s key value).state
unfolding write_attribute
write_attribute-Written s key value = elim (Bool-cases (get key s.attributes == some value)) [
  | inl same ↦
      let held = (option_str_eq.equals_iff (get key s.attributes) (some value)).0 same in
      let kept : (write_attribute s key value).state ≡ s = ground arith in
      subst (Written s key value) (sym kept)
        ((held, λ other ne. refl), ((refl, refl), (refl, inl (held, refl))))
  | inr other ↦
      let bumped : CoordinationSnapshot = record s {
        attributes = insert key value s.attributes;
        generation = wrapping_add s.generation 1;
      } in
      let moved : (write_attribute s key value).state ≡ bumped = ground arith in
      let different : get key s.attributes ≢ some value =
        λ e. ground (arith, (option_str_eq.equals_iff (get key s.attributes) (some value)).1 e) in
      subst (Written s key value) (sym moved) (
        (get-insert_self key value s.attributes, λ i ne. get-insert_ne key i value s.attributes ne),
        ((refl, refl), (refl, inr (different, refl))),
      )
]

write_attribute-rejection :
    (s : CoordinationSnapshot) (key value : Str) → (write_attribute s key value).rejection ≡ none
unfolding write_attribute
write_attribute-rejection s key value = ground arith

-- A compare-and-set that is committed either found the expected value, and leaves the new one with
-- every other attribute, the nodes, assignments and resources as they were and the generation one
-- on, or as it was where the new value was there; or it changes nothing and reports the value that
-- it found, which is not the expected one. The response to a success has the state that is left.
pub compare_and_set_attribute-committed :
    (s : CoordinationSnapshot) (key : Str) (expected : Option Str) (value : Str)
    → let (result, after) = compare_and_set_attribute s key expected value committed in
      ((((response : MetadataRaftResponse) × (result ≡ ok response) × (response.snapshot ≡ after))
          × ((get key s.attributes ≡ expected) × Written s key value after))
        ⊎ ((result ≡ err (attribute_mismatch key (get key s.attributes)))
            × ((after ≡ s) × (get key s.attributes ≢ expected))))
unfolding submit_command apply_command compare_and_set
compare_and_set_attribute-committed s key expected value =
    elim (Bool-cases (get key s.attributes == expected)) [
      | inl found ↦
          let same = (option_str_eq.equals_iff (get key s.attributes) expected).0 found in
          let state : (compare_and_set s key expected value).state
              ≡ (write_attribute s key value).state =
            ground arith in
          inl (
            (
              record {
                accepted = true;
                rejection = none;
                snapshot = (compare_and_set s key expected value).state;
              },
              ground (arith, write_attribute-rejection s key value),
              refl,
            ),
            (same, subst (Written s key value) (sym state) (write_attribute-Written s key value)),
          )
      | inr other ↦
          let different : get key s.attributes ≢ expected =
            λ e. ground (arith, (option_str_eq.equals_iff (get key s.attributes) expected).1 e) in
          inr (ground arith, (ground arith, different))
    ]
