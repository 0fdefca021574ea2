-- ===== src/BTreeMap/Values.antt =====
-- Writes that change nothing, and maps seen through a function on their values.
use ganglion.Prelude.{Ord, none, some, [], ◌∷◌, ◌≡◌, refl, arith, ◌∙◌, sym, ap}
use ganglion.BTreeMap.{BTreeMap, get, insert, remove, map_values}
use ganglion.BTreeMap.Sorted.{Above, Above-trans, IsSorted}

module _ {ℓ κ} {K : Type ℓ} {V : Type κ} ⦃o : Ord K⦄ where
  pub get-Above : (k : K) (m : BTreeMap K V) → Above k m → get k m ≡ none
  unfolding get
  get-Above k [] h = refl
  get-Above k ((j, v) ∷ m) h = ground (arith, get-Above k m h.1)

  -- Writing the value that is there changes nothing.
  pub insert_same :
      (k : K) (v : V) (m : BTreeMap K V) → IsSorted m → get k m ≡ some v → insert k v m ≡ m
  unfolding get insert
  insert_same k v [] s h = cc
  insert_same k v ((j, w) ∷ m) s h =
      ground (arith, o.cmp_eq k j, insert_same k v m s.1, get-Above k m, Above-trans k j m)

  pub remove_absent : (k : K) (m : BTreeMap K V) → get k m ≡ none → remove k m ≡ m
  unfolding get remove
  remove_absent k [] h = refl
  remove_absent k ((j, w) ∷ m) h = ground (arith, remove_absent k m)

module _ {ℓ κ μ} {K : Type ℓ} {V : Type κ} {W : Type μ} ⦃o : Ord K⦄ (f : V → W) where
  map_values-insert :
      (k : K) (v : V) (m : BTreeMap K V)
      → map_values f (insert k v m) ≡ insert k (f v) (map_values f m)
  unfolding insert
  map_values-insert k v [] = refl
  map_values-insert k v ((j, w) ∷ m) = ground (arith, map_values-insert k v m)

  Above-map_values : (a : K) (m : BTreeMap K V) → Above a m → Above a (map_values f m)
  Above-map_values a [] h = tt
  Above-map_values a ((j, w) ∷ m) h = (h.0, Above-map_values a m h.1)

  map_values-IsSorted : (m : BTreeMap K V) → IsSorted m → IsSorted (map_values f m)
  map_values-IsSorted [] s = tt
  map_values-IsSorted ((j, w) ∷ m) s = (Above-map_values j m s.0, map_values-IsSorted m s.1)

  get-map_values :
      (k : K) (m : BTreeMap K V) {v : V} → get k m ≡ some v → get k (map_values f m) ≡ some (f v)
  unfolding get
  get-map_values k [] h = cc
  get-map_values k ((j, w) ∷ m) {v} h = ground (arith, get-map_values k m {v = v})

  -- An overwrite that the function does not see.
  pub map_values-insert_same :
      (k : K) (v : V) (m : BTreeMap K V) {w : V}
      → IsSorted m
      → get k m ≡ some w
      → f v ≡ f w
      → map_values f (insert k v m) ≡ map_values f m
  map_values-insert_same k v m s h e =
      map_values-insert k v m
      ∙ insert_same k (f v) (map_values f m) (map_values-IsSorted m s)
          (get-map_values k m h ∙ ap some (sym e))
