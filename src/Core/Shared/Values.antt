-- ===== src/Core/Shared/Values.antt =====
-- Handles behave as values of their own, whatever they share.
use mathlib.Core.Path.{subst}
use ganglion.Prelude.{
  Eq, ◌↔◌, true, ℕ, suc, ◌+◌, ◌≤◌, ◌<◌, some, none, List, [], ◌∷◌, ◌++◌, ◌≡◌, ◌≢◌, refl, ap, ◌∙◌,
  arith, map, eqb, if◌then◌else◌, Option-cases, Bool-cases, inl, inr,
}
use ganglion.Core.Shared.{
  Cell, Heap, update, released, new, clone, drop, deref, deref_mut, ptr_eq, shared_eq,
}

-- How many of the handles are at an address.
abbrev pub count : ℕ → List ℕ → ℕ
count b [] = 0
count b (a ∷ hs) = if eqb a b then suc (count b hs) else count b hs

count-append : (b : ℕ) (xs ys : List ℕ) → count b (xs ++ ys) ≡ count b xs + count b ys
count-append b [] ys = omega arith
count-append b (x ∷ xs) ys = ground (arith, count-append b xs ys)

module _ {T : Type 0} where
  abbrev strong_at : Heap T → ℕ → ℕ
  strong_at h b = elim (h.cells b) [ none ↦ 0 | some c ↦ c.strong ]

  -- The handles that are alive are those that the heap counts: an allocation has as many handles as
  -- its count says, at least one, and none is at an address that was not given out.
  pub record Counts (h : Heap T) (handles : List ℕ) : Type 0 where
    pub counted : (b : ℕ) → strong_at h b ≡ count b handles
    pub positive : (b : ℕ) (c : Cell T) → h.cells b ≡ some c → 0 < c.strong
    pub fresh : (b : ℕ) → h.next ≤ b → h.cells b ≡ none

  -- Handles that read alike in two heaps.
  map-deref :
      (g h : Heap T) (hs : List ℕ)
      → ((b : ℕ) → 0 < count b hs → deref g b ≡ deref h b)
      → map (deref g) hs ≡ map (deref h) hs
  map-deref g h [] same = refl
  map-deref g h (a ∷ hs) same =
      cc (same a (ground arith), map-deref g h hs (λ b n. same b (ground arith)))

  -- The heaps of the two ways to change a value.
  abbrev in_place : Heap T → ℕ → Cell T → T → Heap T
  in_place h a cell v = record h {
    cells = update h.cells a (some (record { strong = 1; value = v }));
  }

  abbrev copied : Heap T → ℕ → Cell T → T → Heap T
  copied h a cell v = (new (record h { cells = update h.cells a (released cell) }) v).1

  module _ (h : Heap T) (before after : List ℕ) (a : ℕ) (f : T → T)
      (c : Counts h (before ++ a ∷ after)) (cell : Cell T) (found : h.cells a ≡ some cell) where
    counted_split : (b : ℕ) → strong_at h b ≡ count b before + count b (a ∷ after)
    counted_split b = c.counted b ∙ count-append b before (a ∷ after)

    in_place-Counts :
        cell.strong ≡ 1 → Counts (in_place h a cell (f cell.value)) (before ++ a ∷ after)
    in_place-Counts one = record {
      counted = λ b. ground (arith, c.counted b);
      positive = λ b d e. ground (arith, c.positive b d);
      fresh = λ b n. ground (arith, c.fresh b, c.fresh a);
    }

    copied-Counts :
        cell.strong ≢ 1 → Counts (copied h a cell (f cell.value)) (before ++ h.next ∷ after)
    unfolding new
    copied-Counts more = record {
      counted = λ b. ground (
        arith,
        counted_split b,
        counted_split h.next,
        count-append b before (h.next ∷ after),
        c.fresh h.next,
        c.fresh a,
        c.positive a cell,
      );
      positive = λ b d e. ground (arith, c.positive b d, c.positive a cell);
      fresh = λ b n. ground (arith, c.fresh b, c.fresh a);
    }

    in_place-deref :
        (b : ℕ)
        → cell.strong ≡ 1
        → 0 < count b before + count b after
        → deref (in_place h a cell (f cell.value)) b ≡ deref h b
    unfolding deref
    in_place-deref b one n = ground (arith, counted_split b)

    copied-deref :
        (b : ℕ)
        → cell.strong ≢ 1
        → 0 < count b before + count b after
        → deref (copied h a cell (f cell.value)) b ≡ deref h b
    unfolding deref new
    copied-deref b more n = ground (arith, counted_split b, c.fresh b, c.positive a cell)

  -- What a change through the handle in the middle leaves: the heap counts the handles, this handle
  -- reads the changed value, and each other handle reads what it read.
  abbrev pub Changes : Heap T → List ℕ → List ℕ → ℕ → (T → T) → ℕ × Heap T → Type 0
  Changes h before after a f (moved, g) =
      Counts g (before ++ moved ∷ after)
      × ((v : T) × ((deref h a ≡ some v) × (deref g moved ≡ some (f v))))
      × (map (deref g) before ≡ map (deref h) before)
      × (map (deref g) after ≡ map (deref h) after)

  -- A change through one of the handles that are alive is a change of the value that this handle
  -- reads, and of no other: each other handle reads what it read, also where it shared the
  -- allocation. The heap still counts the handles.
  pub deref_mut-Changes :
      (h : Heap T) (before after : List ℕ) (a : ℕ) (f : T → T)
      → Counts h (before ++ a ∷ after)
      → Changes h before after a f (deref_mut h a f)
  unfolding deref_mut new deref
  deref_mut-Changes h before after a f c = elim (Option-cases (h.cells a)) [
    | inl freed ↦ absurd (ground (arith, c.counted a, count-append a before (a ∷ after)))
    | inr (cell, found) ↦ elim (Bool-cases (eqb cell.strong 1)) [
      | inl one ↦
          let same = λ (b : ℕ) (n : 0 < count b before + count b after).
            in_place-deref h before after a f c cell found b (ground arith) n in
          subst (Changes h before after a f) (ground arith) (
            in_place-Counts h before after a f c cell found (ground arith),
            (cell.value, (ground arith, ground arith)),
            map-deref (in_place h a cell (f cell.value)) h before (λ b n. same b (omega arith)),
            map-deref (in_place h a cell (f cell.value)) h after (λ b n. same b (omega arith)),
          )
      | inr more ↦
          let same = λ (b : ℕ) (n : 0 < count b before + count b after).
            copied-deref h before after a f c cell found b (ground arith) n in
          subst (Changes h before after a f) (ground arith) (
            copied-Counts h before after a f c cell found (ground arith),
            (cell.value, (ground arith, ground arith)),
            map-deref (copied h a cell (f cell.value)) h before (λ b n. same b (omega arith)),
            map-deref (copied h a cell (f cell.value)) h after (λ b n. same b (omega arith)),
          )
    ]
  ]

  -- A new handle reads its value and changes no other.
  pub new-Counts :
      (h : Heap T) (handles : List ℕ) (v : T)
      → Counts h handles
      → let (a, g) = new h v in
        Counts g (a ∷ handles)
        × (deref g a ≡ some v)
        × (map (deref g) handles ≡ map (deref h) handles)
  unfolding new deref
  new-Counts h handles v c =
      let (a, g) = new h v in
      (
        record {
          counted = λ b. ground (arith, c.counted b, c.fresh h.next);
          positive = λ b d e. ground (arith, c.positive b d);
          fresh = λ b n. ground (arith, c.fresh b);
        },
        ground arith,
        map-deref g h handles (λ b n. ground (arith, c.counted b, c.fresh h.next)),
      )

  -- A copy of a handle reads what the handle reads and changes no other.
  pub clone-Counts :
      (h : Heap T) (before after : List ℕ) (a : ℕ)
      → Counts h (before ++ a ∷ after)
      → let (b, g) = clone h a in
        Counts g (b ∷ before ++ a ∷ after)
        × (deref g b ≡ deref h a)
        × (map (deref g) (before ++ a ∷ after) ≡ map (deref h) (before ++ a ∷ after))
  unfolding clone deref
  clone-Counts h before after a c = elim (Option-cases (h.cells a)) [
    | inl freed ↦ absurd (ground (arith, c.counted a, count-append a before (a ∷ after)))
    | inr (cell, found) ↦
        let handles = before ++ a ∷ after in
        let g : Heap T = record h {
          cells = update h.cells a (some (record cell { strong = cell.strong + 1 }));
        } in
        subst
          (λ (r : ℕ × Heap T).
            Counts r.1 (r.0 ∷ handles)
            × (deref r.1 r.0 ≡ deref h a)
            × (map (deref r.1) handles ≡ map (deref h) handles))
          {x = (a, g)} (ground arith)
          (
            record {
              counted = λ b. ground (arith, c.counted b);
              positive = λ b d e. ground (arith, c.positive b d);
              fresh = λ b n. ground (arith, c.fresh b, c.fresh a);
            },
            ground arith,
            map-deref g h handles (λ b n. ground arith),
          )
  ]

  -- A handle that is dropped changes no other.
  drop-Counts :
      (h : Heap T) (before after : List ℕ) (a : ℕ)
      → Counts h (before ++ a ∷ after)
      → let g = drop h a in
        Counts g (before ++ after)
        × (map (deref g) (before ++ after) ≡ map (deref h) (before ++ after))
  unfolding drop deref
  drop-Counts h before after a c = elim (Option-cases (h.cells a)) [
    | inl freed ↦ absurd (ground (arith, c.counted a, count-append a before (a ∷ after)))
    | inr (cell, found) ↦
        let handles = before ++ after in
        let split = λ (b : ℕ). c.counted b ∙ count-append b before (a ∷ after) in
        let g : Heap T = record h { cells = update h.cells a (released cell) } in
        subst (λ (r : Heap T). Counts r handles × (map (deref r) handles ≡ map (deref h) handles))
          {x = g} (ground arith)
          (
            record {
              counted =
                  λ b. ground (arith, split b, count-append b before after, c.positive a cell);
              positive = λ b d e. ground (arith, c.positive b d, c.positive a cell);
              fresh = λ b n. ground (arith, c.fresh b, c.fresh a);
            },
            map-deref g h handles
                (λ b n. ground (arith, split b, count-append b before after, c.positive a cell)),
          )
  ]

-- Handles are equal exactly when they read equal values: the short cut for handles at one address
-- never differs from the comparison of the values.
shared_eq-deref :
    {T : Type 0} ⦃e : Eq T⦄ (h : Heap T) (a b : ℕ) (v w : T)
    → deref h a ≡ some v
    → deref h b ≡ some w
    → (shared_eq h a b ≡ some true) ↔ (v ≡ w)
unfolding shared_eq ptr_eq
shared_eq-deref {T} ⦃e⦄ h a b v w p q = elim (Bool-cases (eqb a b)) [
  | inl same ↦
      let here : a ≡ b = ground arith in
      let alike : v ≡ w = cc (ap (deref h) here) in (λ r. alike, λ r. ground arith)
  | inr apart ↦ (λ r. (e.equals_iff v w).0 (ground arith), λ r. ground (arith, e.equals_iff v w))
]
