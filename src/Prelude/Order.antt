-- ===== src/Prelude/Order.antt =====
-- `Ord`: the comparison of keys with the laws of a total order, and the derived orders of lists,
-- options and pairs.
use Prim.Native.Nat.{ℕ, compare, Ordering}
use mathlib.Core.Path.{◌≡◌, refl, ap}
use mathlib.Core.List.{List, [], ◌∷◌}
use mathlib.Core.Option.{Option, none, some}
use mathlib.Core.Bool.{Bool, true, false}
use mathlib.Core.Logic.{◌↔◌}
use native.Mathlib.Omega.{arith}
use ganglion.Prelude.Tests.{Eq}

-- What `Ord` asks of `cmp`; its `Equal` is structural equality, as derived code has it.
pub record IsTotal {ℓ} {K : Type ℓ} (cmp : K → K → Ordering) : Type ℓ where
  pub cmp_refl : (a : K) → cmp a a ≡ Ordering.eq
  pub cmp_eq : (a b : K) → cmp a b ≡ Ordering.eq → a ≡ b
  pub cmp_gt : (a b : K) → cmp a b ≡ Ordering.gt → cmp b a ≡ Ordering.lt
  pub cmp_lt : (a b : K) → cmp a b ≡ Ordering.lt → cmp b a ≡ Ordering.gt
  pub cmp_trans :
      (a b c : K) → cmp a b ≡ Ordering.lt → cmp b c ≡ Ordering.lt → cmp a c ≡ Ordering.lt

pub record Ord {ℓ} (K : Type ℓ) : Type ℓ where
  pub cmp : K → K → Ordering
  pub total : IsTotal cmp
  pub open total use *

-- The next comparison decides where the first finds no difference.
abbrev and_then : Ordering → Ordering → Ordering
and_then Ordering.eq next = next
and_then Ordering.lt next = Ordering.lt
and_then Ordering.gt next = Ordering.gt

pub compare-IsTotal : IsTotal compare
compare-IsTotal = ground arith

instance abbrev pub nat_ord : Ord ℕ
nat_ord = record { cmp = compare; total = compare-IsTotal }

module _ {ℓ κ} {A : Type ℓ} {B : Type κ} ⦃p : Ord A⦄ ⦃q : Ord B⦄ where
  abbrev pub cmp_pair : A × B → A × B → Ordering
  cmp_pair x y = and_then (p.cmp x.0 y.0) (q.cmp x.1 y.1)

  cmp_pair_trans :
      (x y z : A × B)
      → cmp_pair x y ≡ Ordering.lt
      → cmp_pair y z ≡ Ordering.lt
      → cmp_pair x z ≡ Ordering.lt
  cmp_pair_trans x y z h k =
      grind (
        arith,
        p.cmp_eq x.0 y.0,
        p.cmp_eq y.0 z.0,
        p.cmp_trans x.0 y.0 z.0,
        q.cmp_trans x.1 y.1 z.1,
      )

  pub cmp_pair-IsTotal : IsTotal cmp_pair
  cmp_pair-IsTotal = record {
    cmp_refl = λ x. simp (p.cmp_refl, q.cmp_refl);
    cmp_eq = λ x y. ground (arith, p.cmp_eq x.0 y.0, q.cmp_eq x.1 y.1);
    cmp_gt = λ x y. ground (arith, p.cmp_eq x.0 y.0, p.cmp_gt x.0 y.0, q.cmp_gt x.1 y.1);
    cmp_lt = λ x y. ground (arith, p.cmp_eq x.0 y.0, p.cmp_lt x.0 y.0, q.cmp_lt x.1 y.1);
    cmp_trans = cmp_pair_trans;
  }

  instance abbrev pub pair_ord : Ord (A × B)
  pair_ord = record { cmp = cmp_pair; total = cmp_pair-IsTotal }

module _ {ℓ} {A : Type ℓ} ⦃o : Ord A⦄ where
  -- `None` comes before `Some`.
  abbrev cmp_option : Option A → Option A → Ordering
  cmp_option none none = Ordering.eq
  cmp_option none (some b) = Ordering.lt
  cmp_option (some a) none = Ordering.gt
  cmp_option (some a) (some b) = o.cmp a b

  cmp_option_trans :
      (x y z : Option A)
      → cmp_option x y ≡ Ordering.lt
      → cmp_option y z ≡ Ordering.lt
      → cmp_option x z ≡ Ordering.lt
  cmp_option_trans none y none h k = ground arith
  cmp_option_trans none y (some c) h k = refl
  cmp_option_trans (some a) none z h k = cc
  cmp_option_trans (some a) (some b) none h k = cc
  cmp_option_trans (some a) (some b) (some c) h k = o.cmp_trans a b c h k

  cmp_option_eq : (x y : Option A) → cmp_option x y ≡ Ordering.eq → x ≡ y
  cmp_option_eq none none h = refl
  cmp_option_eq none (some b) h = cc
  cmp_option_eq (some a) none h = cc
  cmp_option_eq (some a) (some b) h = ap some (o.cmp_eq a b h)

  cmp_option_flip :
      (x y : Option A)
      → (cmp_option x y ≡ Ordering.gt → cmp_option y x ≡ Ordering.lt)
        × (cmp_option x y ≡ Ordering.lt → cmp_option y x ≡ Ordering.gt)
  cmp_option_flip none none = ((λ h. cc), λ h. cc)
  cmp_option_flip none (some b) = ((λ h. cc), λ h. refl)
  cmp_option_flip (some a) none = ((λ h. refl), λ h. cc)
  cmp_option_flip (some a) (some b) = (o.cmp_gt a b, o.cmp_lt a b)

  cmp_option_refl : (x : Option A) → cmp_option x x ≡ Ordering.eq
  cmp_option_refl none = refl
  cmp_option_refl (some a) = o.cmp_refl a

  pub cmp_option-IsTotal : IsTotal cmp_option
  cmp_option-IsTotal = record {
    cmp_refl = cmp_option_refl;
    cmp_eq = cmp_option_eq;
    cmp_gt = λ x y. (cmp_option_flip x y).0;
    cmp_lt = λ x y. (cmp_option_flip x y).1;
    cmp_trans = cmp_option_trans;
  }

  instance abbrev pub option_ord : Ord (Option A)
  option_ord = record { cmp = cmp_option; total = cmp_option-IsTotal }

  -- Lists compare lexicographically, a proper prefix before its extensions.
  abbrev cmp_list : List A → List A → Ordering
  cmp_list [] [] = Ordering.eq
  cmp_list [] (b ∷ bs) = Ordering.lt
  cmp_list (a ∷ as') [] = Ordering.gt
  cmp_list (a ∷ as') (b ∷ bs) = and_then (o.cmp a b) (cmp_list as' bs)

  cmp_list_refl : (xs : List A) → cmp_list xs xs ≡ Ordering.eq
  cmp_list_refl [] = refl
  cmp_list_refl (x ∷ xs) = rw o.cmp_refl (cmp_list_refl xs)

  cmp_list_eq : (xs ys : List A) → cmp_list xs ys ≡ Ordering.eq → xs ≡ ys
  cmp_list_eq [] [] h = refl
  cmp_list_eq [] (y ∷ ys) h = cc
  cmp_list_eq (x ∷ xs) [] h = cc
  cmp_list_eq (x ∷ xs) (y ∷ ys) h = ground (arith, o.cmp_eq x y, cmp_list_eq xs ys)

  cmp_list_flip :
      (xs ys : List A)
      → (cmp_list xs ys ≡ Ordering.gt → cmp_list ys xs ≡ Ordering.lt)
        × (cmp_list xs ys ≡ Ordering.lt → cmp_list ys xs ≡ Ordering.gt)
  cmp_list_flip [] [] = ((λ h. cc), λ h. cc)
  cmp_list_flip [] (y ∷ ys) = ((λ h. cc), λ h. refl)
  cmp_list_flip (x ∷ xs) [] = ((λ h. refl), λ h. cc)
  cmp_list_flip (x ∷ xs) (y ∷ ys) =
      ground (arith, o.cmp_eq x y, o.cmp_gt x y, o.cmp_lt x y, cmp_list_flip xs ys)

  cmp_list_trans :
      (xs ys zs : List A)
      → cmp_list xs ys ≡ Ordering.lt
      → cmp_list ys zs ≡ Ordering.lt
      → cmp_list xs zs ≡ Ordering.lt
  cmp_list_trans [] ys [] h k = ground arith
  cmp_list_trans [] ys (z ∷ zs) h k = refl
  cmp_list_trans (x ∷ xs) [] zs h k = cc
  cmp_list_trans (x ∷ xs) (y ∷ ys) [] h k = cc
  cmp_list_trans (x ∷ xs) (y ∷ ys) (z ∷ zs) h k =
      grind (arith, o.cmp_eq x y, o.cmp_eq y z, o.cmp_trans x y z, cmp_list_trans xs ys zs)

  pub cmp_list-IsTotal : IsTotal cmp_list
  cmp_list-IsTotal = record {
    cmp_refl = cmp_list_refl;
    cmp_eq = cmp_list_eq;
    cmp_gt = λ x y. (cmp_list_flip x y).0;
    cmp_lt = λ x y. (cmp_list_flip x y).1;
    cmp_trans = cmp_list_trans;
  }

  instance abbrev pub list_ord : Ord (List A)
  list_ord = record { cmp = cmp_list; total = cmp_list-IsTotal }

-- An order pulled back along an injection.
module _ {ℓ κ} {A : Type ℓ} {K : Type κ} ⦃o : Ord K⦄ (key : A → K) where
  abbrev pub cmp_by : A → A → Ordering
  cmp_by a b = o.cmp (key a) (key b)

  pub cmp_by-IsTotal : ((a b : A) → key a ≡ key b → a ≡ b) → IsTotal cmp_by
  cmp_by-IsTotal injective = record {
    cmp_refl = λ a. o.cmp_refl (key a);
    cmp_eq = λ a b h. injective a b (o.cmp_eq (key a) (key b) h);
    cmp_gt = λ a b. o.cmp_gt (key a) (key b);
    cmp_lt = λ a b. o.cmp_lt (key a) (key b);
    cmp_trans = λ a b c. o.cmp_trans (key a) (key b) (key c);
  }

module _ {ℓ} {K : Type ℓ} ⦃o : Ord K⦄ where
  -- A comparison decides equality.
  unfoldable pub same : K → K → Bool
  same a b = elim (o.cmp a b) [ Ordering.eq ↦ true | _ ↦ false ]

  pub same_iff : (a b : K) → (same a b ≡ true) ↔ (a ≡ b)
  unfolding same
  same_iff a b = (
    (λ h. o.cmp_eq a b (ground arith)),
    λ p. mathlib.Core.Path.subst (λ c. same a c ≡ true) p (rw (o.cmp_refl a, same)),
  )

  abbrev pub eq_of : Eq K
  eq_of = record { equals = same; equals_iff = same_iff }
