-- ===== src/Core/Placement/Owners.antt =====
-- The owners that the policies choose.
use mathlib.Core.Path.{subst}
use ganglion.Prelude.{
  ℕ, ◌%◌, ◌<◌, Option, some, none, true, List, [], ◌∷◌, ◌≡◌, ◌≢◌, refl, arith, Ordering, Ord,
  nat_ord, list_ord, pair_ord, length, contains, All, contains-get_or, inl, inr, ◌⊎◌,
}
use ganglion.BTreeMap.{BTreeMap}
use ganglion.Core.Model.{Str, str_eq, PartitionAssignment}
use ganglion.Core.Placement.{pick_owner}
use ganglion.Core.Placement.Balanced.{
  load_key, least_loaded, pick_least_loaded_owner, balanced_owner,
}

-- The index `idx % len` is in range: the owner picked is a live node.
pub pick_owner-live :
    (idx : ℕ) (node_ids : List Str) (existing : Option PartitionAssignment)
    → 0 < length node_ids
    → contains node_ids (pick_owner idx node_ids existing) ≡ true
unfolding pick_owner
pick_owner-live idx node_ids none h = contains-get_or node_ids _ [] (omega arith)
pick_owner-live idx node_ids (some existing) h =
    ground (arith, contains-get_or node_ids (idx % length node_ids) [] (omega arith))

module _ {ℓ} {K : Type ℓ} ⦃o : Ord K⦄ where
  not_lt_self : (a : K) → o.cmp a a ≢ Ordering.lt
  not_lt_self a = λ p. ground (arith, o.cmp_refl a)

  not_lt_trans :
      (a b r : K) → o.cmp a b ≢ Ordering.lt → o.cmp b r ≢ Ordering.lt → o.cmp a r ≢ Ordering.lt
  not_lt_trans a b r h k = λ p. ground (arith, o.cmp_gt b a, o.cmp_eq b a, o.cmp_trans b a r)

Ordering-cases : (c : Ordering) → (c ≡ Ordering.lt) ⊎ (c ≢ Ordering.lt)
Ordering-cases Ordering.lt = inl refl
Ordering-cases Ordering.eq = inr (λ p. cc)
Ordering-cases Ordering.gt = inr (λ p. cc)

-- Nothing among the nodes comes before `node` in the order by load and then by id.
abbrev IsLeast : BTreeMap Str ℕ → Str → List Str → Type 0
IsLeast load node node_ids =
    All (λ z. pair_ord.cmp (load_key load z) (load_key load node) ≢ Ordering.lt) node_ids

-- One of the nodes, and the least of them.
pub record IsLeastLoaded (load : BTreeMap Str ℕ) (node_ids : List Str) (node : Str) : Type 0 where
  pub live : contains node_ids node ≡ true
  pub least : IsLeast load node node_ids

module _ (load : BTreeMap Str ℕ) where
  less_step :
      (best node : Str) (rest : List Str) (r : Str)
      → pair_ord.cmp (load_key load node) (load_key load best) ≡ Ordering.lt
      → IsLeastLoaded load (node ∷ rest) r
      → IsLeastLoaded load (best ∷ node ∷ rest) r
  less_step best node rest r less later = record {
    live = ground (arith, later.live);
    least = (
      (λ p. later.least.0 (pair_ord.cmp_trans (load_key load node) (load_key load best) _ less p)),
      later.least,
    );
  }

  not_less_step :
      (best node : Str) (rest : List Str) (r : Str)
      → pair_ord.cmp (load_key load node) (load_key load best) ≢ Ordering.lt
      → IsLeastLoaded load (best ∷ rest) r
      → IsLeastLoaded load (best ∷ node ∷ rest) r
  not_less_step best node rest r not_less later = record {
    live = ground (arith, later.live);
    least = (
      later.least.0,
      (
        not_lt_trans (load_key load node) (load_key load best) (load_key load r) not_less
            later.least.0,
        later.least.1,
      ),
    );
  }

  least_loaded-IsLeastLoaded :
      (best : Str) (nodes : List Str)
      → IsLeastLoaded load (best ∷ nodes) (least_loaded load best nodes)
  unfolding least_loaded
  least_loaded-IsLeastLoaded best [] = record {
    live = ground (arith, str_eq.equals_iff best best);
    least = (not_lt_self (load_key load best), tt);
  }
  least_loaded-IsLeastLoaded best (node ∷ rest) =
      elim (Ordering-cases (pair_ord.cmp (load_key load node) (load_key load best))) [
        | inl less ↦
            subst (IsLeastLoaded load (best ∷ node ∷ rest)) (rw less refl)
              (less_step best node rest _ less (least_loaded-IsLeastLoaded node rest))
        | inr not_less ↦
            subst (IsLeastLoaded load (best ∷ node ∷ rest)) (ground (arith, not_less))
              (not_less_step best node rest _ not_less (least_loaded-IsLeastLoaded best rest))
      ]

-- Among at least one node, the owner picked by load is one of the nodes, and none comes before
-- it in the order by load and then by id.
pick_least_loaded_owner-IsLeastLoaded :
    (load : BTreeMap Str ℕ) (node_ids : List Str)
    → 0 < length node_ids
    → IsLeastLoaded load node_ids (pick_least_loaded_owner node_ids load)
unfolding pick_least_loaded_owner
pick_least_loaded_owner-IsLeastLoaded load [] h = absurd (omega arith)
pick_least_loaded_owner-IsLeastLoaded load (node ∷ rest) h =
    least_loaded-IsLeastLoaded load node rest

pub balanced_owner-live :
    (node_ids : List Str) (existing : Option PartitionAssignment) (load : BTreeMap Str ℕ)
    → 0 < length node_ids
    → contains node_ids (balanced_owner node_ids existing load) ≡ true
unfolding balanced_owner
balanced_owner-live node_ids none load h =
    (pick_least_loaded_owner-IsLeastLoaded load node_ids h).live
balanced_owner-live node_ids (some existing) load h =
    ground (arith, (pick_least_loaded_owner-IsLeastLoaded load node_ids h).live)
