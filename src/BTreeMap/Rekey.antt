-- ===== src/BTreeMap/Rekey.antt =====
-- A map under other keys: `collect` into a `Result` of a map, after a conversion of each key that
-- may fail, and what it takes for the way back to give the same map.
use mathlib.Core.Path.{subst}
use ganglion.Prelude.{
  Ord, Ordering, Option, none, some, [], ◌∷◌, ◌≡◌, ◌≢◌, ◌⊎◌, inl, inr, Option-cases, refl, sym, ◌∙◌,
  ap, arith,
}
use ganglion.BTreeMap.{BTreeMap, get, insert}
use ganglion.BTreeMap.Sorted.{
  Above, Above-trans, IsSorted, Each, Each-insert, get-insert_self, get-insert_ne, insert-IsSorted,
}
use ganglion.BTreeMap.Values.{get-Above}

module _ {ℓ κ μ} {J : Type ℓ} {K : Type κ} {V : Type μ} ⦃o : Ord K⦄ (f : J → Option K) where
  -- The entries in order; the first key that cannot be converted ends it.
  unfoldable pub map_keys : BTreeMap J V → BTreeMap K V → Option (BTreeMap K V)
  unfolding insert
  map_keys [] done = some done
  map_keys ((j, v) ∷ m) done = elim (f j) [ none ↦ none | some k ↦ map_keys m (insert k v done) ]

  pub map_keys-IsSorted :
      (m : BTreeMap J V) (done result : BTreeMap K V)
      → IsSorted done
      → map_keys m done ≡ some result
      → IsSorted result
  unfolding map_keys
  map_keys-IsSorted [] done result s h = subst IsSorted (ground arith) s
  map_keys-IsSorted ((j, v) ∷ m) done result s h = elim (Option-cases (f j)) [
    | inl failed ↦ absurd (ground arith)
    | inr (k, to) ↦
        map_keys-IsSorted m (insert k v done) result (insert-IsSorted k v done s) (ground arith)
  ]

-- `Option::or`
abbrev pub or_else {ℓ} : {A : Type ℓ} → Option A → Option A → Option A
or_else none other = other
or_else (some a) other = some a

module _ {ℓ} {K : Type ℓ} ⦃o : Ord K⦄ where
  key-cases : (a b : K) → (a ≡ b) ⊎ (a ≢ b)
  key-cases a b = go (o.cmp a b) refl
    where
      go : (c : Ordering) → o.cmp a b ≡ c → (a ≡ b) ⊎ (a ≢ b)
      go Ordering.eq e = inl (o.cmp_eq a b e)
      go Ordering.lt e = inr (λ same. ground (arith, o.cmp_refl a))
      go Ordering.gt e = inr (λ same. ground (arith, o.cmp_refl a))

module _ {ℓ μ} {K : Type ℓ} {V : Type μ} ⦃o : Ord K⦄ where
  get_head : (k : K) (v : V) (m : BTreeMap K V) → get k ((k, v) ∷ m) ≡ some v
  unfolding get
  get_head k v m = rw (o.cmp_refl k, get)

  get_tail : (j k : K) (v : V) (m : BTreeMap K V) → k ≢ j → get k ((j, v) ∷ m) ≡ get k m
  unfolding get
  get_tail j k v m h = ground (arith, o.cmp_eq k j)

  get-Each {ν} :
      (P : K → V → Type ν) (k : K) (m : BTreeMap K V) {v : V} → Each P m → get k m ≡ some v → P k v
  unfolding get
  get-Each P k [] e h = absurd (ground arith)
  get-Each P k ((j, w) ∷ m) {v} e h = elim (key-cases k j) [
    | inl same ↦
        let value : w ≡ v = ground (arith, get_head j w m) in
        subst (λ x. P x v) (sym same) (subst (P j) value e.0)
    | inr other ↦ get-Each P k m e.1 (sym (get_tail j k w m other) ∙ h)
  ]

  -- The lookups of one map are among those of the other.
  abbrev Within : BTreeMap K V → BTreeMap K V → Type (ℓ ⊔ μ)
  Within a b = (k : K) (v : V) → get k a ≡ some v → get k b ≡ some v

  Within-tail :
      (j k : K) (u v : V) (a b : BTreeMap K V)
      → j ≡ k
      → Above j a
      → Within ((j, u) ∷ a) ((k, v) ∷ b)
      → Within a b
  Within-tail j k u v a b same above within i w h = elim (key-cases i j) [
    | inl here ↦ absurd (ground (arith, get-Above j a above))
    | inr other ↦
        sym (get_tail k i v b (λ e. other (e ∙ sym same))) ∙ within i w (get_tail j i u a other ∙ h)
  ]

  Within-Above : (j : K) (u : V) (a b : BTreeMap K V) → Above j b → ¬ Within ((j, u) ∷ a) b
  Within-Above j u a b above within =
      let found = within j u (get_head j u a) in ground (arith, get-Above j b above)

  -- Two maps in key order with the same lookups are the same.
  get_extensional : (a b : BTreeMap K V) → IsSorted a → IsSorted b → Within a b → Within b a → a ≡ b
  get_extensional [] [] s t up down = refl
  get_extensional [] ((k, v) ∷ b) s t up down = absurd (Within-Above k v b [] tt down)
  get_extensional ((j, u) ∷ a) [] s t up down = absurd (Within-Above j u a [] tt up)
  get_extensional ((j, u) ∷ a) ((k, v) ∷ b) s t up down =
      go (o.cmp j k) refl (get_extensional a b s.1 t.1)
    where
      go :
          (c : Ordering)
          → o.cmp j k ≡ c
          → (Within a b → Within b a → a ≡ b)
          → (j, u) ∷ a ≡ (k, v) ∷ b
      go Ordering.lt e tails =
          absurd (Within-Above j u a ((k, v) ∷ b) (e, Above-trans j k b e t.0) up)
      go Ordering.gt e tails =
          let before = o.cmp_gt j k e in
          absurd (Within-Above k v b ((j, u) ∷ a) (before, Above-trans k j a before s.0) down)
      go Ordering.eq e tails =
          let same = o.cmp_eq j k e in
          let rest =
            tails (Within-tail j k u v a b same s.0 up)
              (Within-tail k j v u b a (sym same) t.0 down) in
          let found = up j u (get_head j u a) in
          let value : u ≡ v = ground (arith, get_head k v b) in λ i. (same i, value i) ∷ rest i

module _ {ℓ κ μ} {J : Type ℓ} {K : Type κ} {V : Type μ} (f : J → Option K) (g : K → Option J) where
  -- A key that is converted to one that is converted back.
  abbrev pub Linked : J → V → Type (ℓ ⊔ κ)
  Linked j v = (k : K) × (f j ≡ some k) × (g k ≡ some j)

module _ {ℓ κ μ} {J : Type ℓ} {K : Type κ} {V : Type μ} ⦃p : Ord J⦄ ⦃o : Ord K⦄ (f : J → Option K)
    (g : K → Option J) where
  -- A conversion of linked keys gives a map.
  pub map_keys-Linked :
      (m : BTreeMap J V) (done : BTreeMap K V)
      → Each (Linked f g) m
      → Each (Linked g f) done
      → IsSorted done
      → (result : BTreeMap K V) × (map_keys f m done ≡ some result)
        × (IsSorted result)
        × (Each (Linked g f) result)
  unfolding map_keys
  map_keys-Linked [] done links made s = (done, refl, s, made)
  map_keys-Linked ((j, v) ∷ m) done ((k, there, back), links) made s =
      let (result, e, sorted, rest) =
        map_keys-Linked m (insert k v done) links
          (Each-insert (Linked g f) k v done (j, back, there) made) (insert-IsSorted k v done s) in
      (result, ground (arith, e), sorted, rest)

  -- Under a key that is converted to one that is converted back, the new map has the entry of the
  -- old one, or else what was there before.
  pub map_keys-get :
      (m : BTreeMap J V) (done result : BTreeMap K V)
      → IsSorted m
      → Each (Linked f g) m
      → map_keys f m done ≡ some result
      → (j : J) (k : K) → f j ≡ some k
      → g k ≡ some j
      → get k result ≡ or_else (get j m) (get k done)
  unfolding map_keys get
  map_keys-get [] done result s links e j k there back = ground arith
  map_keys-get ((i, v) ∷ m) done result s ((l, there_i, back_i), links) e j k there back =
      let rest = map_keys-get m (insert l v done) result s.1 links (ground arith) j k there back in
      elim (key-cases j i) [
        | inl same ↦
            let key : k ≡ l = ground arith in
            let above = ap (λ x. get x m) same ∙ get-Above i m s.0 in
            let written = ap (λ x. get x (insert l v done)) key ∙ get-insert_self l v done in
            let here = ap (λ x. get x ((i, v) ∷ m)) same ∙ get_head i v m in
            rest ∙ (λ t. or_else (above t) (written t)) ∙ (λ t. or_else (sym here t) (get k done))
        | inr other ↦
            let key : k ≢ l = λ e. other (ground (arith, e)) in
            rest ∙ (λ t. or_else (sym (get_tail i j v m other) t) (get-insert_ne l k v done key t))
      ]

module _ {ℓ κ μ} {J : Type ℓ} {K : Type κ} {V : Type μ} ⦃p : Ord J⦄ ⦃o : Ord K⦄ (f : J → Option K)
    (g : K → Option J) where
  or_none : (x : Option V) → or_else x none ≡ x
  or_none none = refl
  or_none (some v) = refl

  -- The way there succeeds, and the way back gives the same map.
  pub map_keys-map_keys :
      (m : BTreeMap J V)
      → IsSorted m
      → Each (Linked f g) m
      → (there : BTreeMap K V) × (map_keys f m [] ≡ some there) × (map_keys g there [] ≡ some m)
  unfolding get
  map_keys-map_keys m s links =
      let (there, e, sorted, back) = map_keys-Linked f g m [] links tt tt in
      let (again, e_again, sorted_again, links_again) = map_keys-Linked g f there [] back tt tt in
      let lookup : (j : J) (v : V) → Linked f g j v → get j again ≡ get j m = λ j v link.
        let (k, to, from) = link in
        map_keys-get g f there [] again sorted back e_again k j from to
        ∙ or_none (get k there)
        ∙ map_keys-get f g m [] there s links e j k to from
        ∙ or_none (get j m) in
      let same =
        get_extensional again m sorted_again s
          (λ j v h. sym (lookup j v (get-Each (Linked f g) j again links_again h)) ∙ h)
          (λ j v h. lookup j v (get-Each (Linked f g) j m links h) ∙ h) in
      (there, e, e_again ∙ ap some same)
