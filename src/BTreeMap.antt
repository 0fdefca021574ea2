-- ===== src/BTreeMap.antt =====
-- `std::collections::BTreeMap` and `BTreeSet` as the program uses them: the entries in key order.
-- A set is a map to the unit type, as in the standard library.
pub mod Sorted
pub mod Values
pub mod Sizes
pub mod Rekey
use ganglion.Prelude.{
  Ord, Ordering, Option, none, some, Bool, true, false, List, [], ◌∷◌, map, ◌++◌,
}

abbrev pub BTreeMap {ℓ κ} : Type ℓ → Type κ → Type (ℓ ⊔ κ)
BTreeMap K V = List (K × V)

abbrev pub BTreeSet {ℓ} : Type ℓ → Type ℓ
BTreeSet K = BTreeMap K (Unit {0})

abbrev pub is_some {ℓ} : {A : Type ℓ} → Option A → Bool
is_some none = false
is_some (some _) = true

module _ {ℓ κ} {K : Type ℓ} {V : Type κ} where
  abbrev pub keys : BTreeMap K V → List K
  keys [] = []
  keys ((k, v) ∷ m) = k ∷ keys m

  abbrev pub values : BTreeMap K V → List V
  values [] = []
  values ((k, v) ∷ m) = v ∷ values m

-- The same keys with each value mapped.
abbrev pub map_values {ℓ κ μ} :
    {K : Type ℓ} {V : Type κ} {W : Type μ} → (V → W) → BTreeMap K V → BTreeMap K W
map_values f [] = []
map_values f ((k, v) ∷ m) = (k, f v) ∷ map_values f m

module _ {ℓ κ} {K : Type ℓ} {V : Type κ} ⦃o : Ord K⦄ where
  unfoldable pub get : K → BTreeMap K V → Option V
  get k [] = none
  get k ((j, v) ∷ m) = elim (o.cmp k j) [ Ordering.eq ↦ some v | _ ↦ get k m ]

  unfoldable pub insert : K → V → BTreeMap K V → BTreeMap K V
  insert k v [] = (k, v) ∷ []
  insert k v ((j, w) ∷ m) = elim (o.cmp k j) [
    | Ordering.lt ↦ (k, v) ∷ (j, w) ∷ m
    | Ordering.eq ↦ (k, v) ∷ m
    | Ordering.gt ↦ (j, w) ∷ insert k v m
  ]

  unfoldable pub remove : K → BTreeMap K V → BTreeMap K V
  remove k [] = []
  remove k ((j, w) ∷ m) = elim (o.cmp k j) [ Ordering.eq ↦ remove k m | _ ↦ (j, w) ∷ remove k m ]

  -- What `split_off(&k)` returns: the entries from `k` on.
  unfoldable pub split_off : K → BTreeMap K V → BTreeMap K V
  split_off k [] = []
  split_off k ((j, w) ∷ m) = elim (o.cmp j k) [
    | Ordering.lt ↦ split_off k m
    | _ ↦ (j, w) ∷ split_off k m
  ]

  -- What `split_off(&k)` leaves in the map: the entries before `k`.
  unfoldable pub below : K → BTreeMap K V → BTreeMap K V
  below k [] = []
  below k ((j, w) ∷ m) = elim (o.cmp j k) [ Ordering.lt ↦ (j, w) ∷ below k m | _ ↦ below k m ]

  -- `collect` of pairs, and `extend`: a later pair replaces an earlier one.
  unfoldable pub extend : BTreeMap K V → List (K × V) → BTreeMap K V
  unfolding insert
  extend m [] = m
  extend m ((k, v) ∷ ps) = extend (insert k v m) ps

  abbrev pub contains_key : K → BTreeMap K V → Bool
  contains_key k m = is_some (get k m)
