-- ===== src/BTreeMap/Sorted.antt =====
-- The key order of a map, kept by each operation, and what a lookup finds after it.
use ganglion.Prelude.{Ord, Ordering, none, some, [], ◌∷◌, ◌++◌, ◌≡◌, ◌≢◌, refl, arith}
use ganglion.BTreeMap.{BTreeMap, get, insert, remove, split_off, below}

module _ {ℓ κ} {K : Type ℓ} {V : Type κ} ⦃o : Ord K⦄ where
  -- Every key of the map is above `k`.
  abbrev pub Above : K → BTreeMap K V → Type 0
  Above k [] = Unit
  Above k ((j, v) ∷ m) = (o.cmp k j ≡ Ordering.lt) × Above k m

  abbrev pub IsSorted : BTreeMap K V → Type 0
  IsSorted [] = Unit
  IsSorted ((k, v) ∷ m) = Above k m × IsSorted m

  -- A predicate on every entry.
  abbrev pub Each {μ} : (K → V → Type μ) → BTreeMap K V → Type μ
  Each P [] = Unit
  Each P ((k, v) ∷ m) = P k v × Each P m

  pub get-insert_self : (k : K) (v : V) (m : BTreeMap K V) → get k (insert k v m) ≡ some v
  unfolding get insert
  get-insert_self k v [] = rw (o.cmp_refl k, get)
  get-insert_self k v ((j, w) ∷ m) = ground (arith, o.cmp_refl k, get-insert_self k v m)

  pub get-insert_ne : (k j : K) (v : V) (m : BTreeMap K V) → j ≢ k → get j (insert k v m) ≡ get j m
  unfolding get insert
  get-insert_ne k j v [] h = ground (arith, o.cmp_eq j k)
  get-insert_ne k j v ((i, w) ∷ m) h =
      ground (arith, o.cmp_eq j k, o.cmp_eq k i, get-insert_ne k j v m)

  pub get-remove_self : (k : K) (m : BTreeMap K V) → get k (remove k m) ≡ none
  unfolding get remove
  get-remove_self k [] = refl
  get-remove_self k ((j, w) ∷ m) = ground (arith, get-remove_self k m)

  pub get-remove_ne : (k j : K) (m : BTreeMap K V) → j ≢ k → get j (remove k m) ≡ get j m
  unfolding get remove
  get-remove_ne k j [] h = refl
  get-remove_ne k j ((i, w) ∷ m) h = ground (arith, o.cmp_eq j i, o.cmp_eq k i, get-remove_ne k j m)

  pub Above-trans : (a b : K) (m : BTreeMap K V) → o.cmp a b ≡ Ordering.lt → Above b m → Above a m
  Above-trans a b [] h k = tt
  Above-trans a b ((j, v) ∷ m) h k = (o.cmp_trans a b j h k.0, Above-trans a b m h k.1)

  Above-insert :
      (a k : K) (v : V) (m : BTreeMap K V)
      → o.cmp a k ≡ Ordering.lt
      → Above a m
      → Above a (insert k v m)
  unfolding insert
  Above-insert a k v [] h s = (h, tt)
  Above-insert a k v ((j, w) ∷ m) h s = ground (arith, Above-insert a k v m)

  pub insert-IsSorted : (k : K) (v : V) (m : BTreeMap K V) → IsSorted m → IsSorted (insert k v m)
  unfolding insert
  insert-IsSorted k v [] s = (tt, tt)
  insert-IsSorted k v ((j, w) ∷ m) s = ground (
    arith,
    o.cmp_gt k j,
    o.cmp_eq k j,
    Above-trans k j m,
    Above-insert j k v m,
    insert-IsSorted k v m,
  )

  Above-remove : (a k : K) (m : BTreeMap K V) → Above a m → Above a (remove k m)
  unfolding remove
  Above-remove a k [] s = tt
  Above-remove a k ((j, w) ∷ m) s = ground (arith, Above-remove a k m)

  pub remove-IsSorted : (k : K) (m : BTreeMap K V) → IsSorted m → IsSorted (remove k m)
  unfolding remove
  remove-IsSorted k [] s = tt
  remove-IsSorted k ((j, w) ∷ m) s = ground (arith, Above-remove j k m, remove-IsSorted k m)

  Above-below : (a k : K) (m : BTreeMap K V) → Above a m → Above a (below k m)
  unfolding below
  Above-below a k [] s = tt
  Above-below a k ((j, w) ∷ m) s = ground (arith, Above-below a k m)

  pub below-IsSorted : (k : K) (m : BTreeMap K V) → IsSorted m → IsSorted (below k m)
  unfolding below
  below-IsSorted k [] s = tt
  below-IsSorted k ((j, w) ∷ m) s = ground (arith, Above-below j k m, below-IsSorted k m)

  Above-split_off : (a k : K) (m : BTreeMap K V) → Above a m → Above a (split_off k m)
  unfolding split_off
  Above-split_off a k [] s = tt
  Above-split_off a k ((j, w) ∷ m) s = ground (arith, Above-split_off a k m)

  pub split_off-IsSorted : (k : K) (m : BTreeMap K V) → IsSorted m → IsSorted (split_off k m)
  unfolding split_off
  split_off-IsSorted k [] s = tt
  split_off-IsSorted k ((j, w) ∷ m) s =
      ground (arith, Above-split_off j k m, split_off-IsSorted k m)

  -- A key above all others goes to the end.
  pub insert_last :
      (m : BTreeMap K V) (k : K) (v : V)
      → Each (λ j w. o.cmp j k ≡ Ordering.lt) m
      → insert k v m ≡ m ++ (k, v) ∷ []
  unfolding insert
  insert_last [] k v h = refl
  insert_last ((j, w) ∷ m) k v h = ground (arith, o.cmp_lt j k, insert_last m k v)

  pub Each-insert {μ} :
      (P : K → V → Type μ) (k : K) (v : V) (m : BTreeMap K V)
      → P k v
      → Each P m
      → Each P (insert k v m)
  unfolding insert
  Each-insert P k v [] p s = (p, tt)
  Each-insert P k v ((j, w) ∷ m) p s =
      elim (o.cmp k j)
        as (λ c. Each P (elim c [
          | Ordering.lt ↦ (k, v) ∷ (j, w) ∷ m
          | Ordering.eq ↦ (k, v) ∷ m
          | Ordering.gt ↦ (j, w) ∷ insert k v m
        ])) [
          | Ordering.lt ↦ (p, s)
          | Ordering.eq ↦ (p, s.1)
          | Ordering.gt ↦ (s.0, Each-insert P k v m p s.1)
        ]
