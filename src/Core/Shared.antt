-- ===== src/Core/Shared.antt =====
-- `Shared` of `crates/ganglion-core/src/shared.rs`. The allocations behind an `Arc` are a heap with
-- counts of the handles that share them, a handle is its address, and what the code does through
-- `std::sync::Arc` is written out: there are no weak handles.
pub mod Values
mod Tests
use ganglion.Prelude.{
  ℕ, zero, suc, ◌+◌, ◌-◌, Option, some, none, Bool, true, false, eqb, ◌||◌, Eq, ◌==◌, if◌then◌else◌,
}

pub record Cell (T : Type 0) : Type 0 where
  pub strong : ℕ
  pub value : T

-- The addresses from `next` on were never given out.
pub record Heap (T : Type 0) : Type 0 where
  pub cells : ℕ → Option (Cell T)
  pub next : ℕ

unfoldable pub ptr_eq : ℕ → ℕ → Bool
ptr_eq a b = eqb a b

module _ {T : Type 0} where
  abbrev pub update : (ℕ → Option (Cell T)) → ℕ → Option (Cell T) → ℕ → Option (Cell T)
  update cells a c b = if eqb a b then c else cells b

  -- A count that falls to zero frees the allocation.
  abbrev pub released : Cell T → Option (Cell T)
  released c = if eqb c.strong 1 then none else some (record c { strong = c.strong - 1 })

  -- `Shared::new`, and so `from`, `from_iter` and `deserialize`.
  unfoldable pub new : Heap T → T → ℕ × Heap T
  new h v = (
    h.next,
    record {
      cells = update h.cells h.next (some (record { strong = 1; value = v }));
      next = h.next + 1;
    },
  )

  unfoldable pub clone : Heap T → ℕ → ℕ × Heap T
  clone h a = elim (h.cells a) [
    | none ↦ (a, h)
    | some c ↦
        (a, record h { cells = update h.cells a (some (record c { strong = c.strong + 1 })) })
  ]

  unfoldable pub drop : Heap T → ℕ → Heap T
  drop h a = elim (h.cells a) [
    | none ↦ h
    | some c ↦ record h { cells = update h.cells a (released c) }
  ]

  unfoldable pub deref : Heap T → ℕ → Option T
  deref h a = elim (h.cells a) [ none ↦ none | some c ↦ some c.value ]

  -- `deref_mut` and what is then done to the value: `Arc::make_mut` copies a value that another
  -- handle shares, and the handle moves to the copy.
  unfoldable pub deref_mut : Heap T → ℕ → (T → T) → ℕ × Heap T
  unfolding new
  deref_mut h a f = elim (h.cells a) [
    | none ↦ (a, h)
    | some c ↦
        if eqb c.strong 1
        then (
          a,
          record h { cells = update h.cells a (some (record { strong = 1; value = f c.value })) },
        )
        else new (record h { cells = update h.cells a (released c) }) (f c.value)
  ]

  -- `Arc::unwrap_or_clone`, which gives up the handle.
  unfoldable into_inner : Heap T → ℕ → Option T × Heap T
  unfolding deref drop
  into_inner h a = (deref h a, drop h a)

  -- `PartialEq`
  unfoldable pub shared_eq : ⦃e : Eq T⦄ → Heap T → ℕ → ℕ → Option Bool
  unfolding ptr_eq deref
  shared_eq h a b = elim (deref h a) [
    | none ↦ none
    | some v ↦ elim (deref h b) [ none ↦ none | some w ↦ some (ptr_eq a b || v == w) ]
  ]
