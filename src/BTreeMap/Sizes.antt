-- ===== src/BTreeMap/Sizes.antt =====
-- How many entries a map has.
use ganglion.Prelude.{◌+◌, ◌≤◌, Ord, Ordering, true, false, [], ◌∷◌, ◌≡◌, refl, arith, length}
use ganglion.BTreeMap.{BTreeMap, get, insert, remove, contains_key}
use ganglion.BTreeMap.Sorted.{IsSorted, Above, Above-trans}

module _ {ℓ κ} {K : Type ℓ} {V : Type κ} ⦃o : Ord K⦄ where
  pub length-insert : (k : K) (v : V) (m : BTreeMap K V) → length (insert k v m) ≤ length m + 1
  unfolding insert
  length-insert k v [] = omega arith
  length-insert k v ((j, w) ∷ m) = ground (arith, length-insert k v m)

  get-Above : (a : K) (m : BTreeMap K V) → Above a m → contains_key a m ≡ false
  unfolding get
  get-Above a [] h = refl
  get-Above a ((j, w) ∷ m) h = ground (arith, o.cmp_refl a, get-Above a m h.1)

  get-below_all :
      (k j : K) (m : BTreeMap K V) → o.cmp k j ≡ Ordering.lt → Above j m → contains_key k m ≡ false
  get-below_all k j m h s = get-Above k m (Above-trans k j m h s)

  pub length-insert_present :
      (k : K) (v : V) (m : BTreeMap K V)
      → IsSorted m
      → contains_key k m ≡ true
      → length (insert k v m) ≡ length m
  unfolding insert get
  length-insert_present k v [] s h = cc
  length-insert_present k v ((j, w) ∷ m) s h =
      ground (arith, get-below_all k j m, length-insert_present k v m)

  pub length-remove : (k : K) (m : BTreeMap K V) → length (remove k m) ≤ length m
  unfolding remove
  length-remove k [] = omega arith
  length-remove k ((j, w) ∷ m) = ground (arith, length-remove k m)
