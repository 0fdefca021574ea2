-- ===== src/Prelude/Counting.antt =====
-- Counting the elements of lists without repetition.
use Prim.Native.Nat.{ℕ, zero, suc, ◌≤◌, ◌<◌}
use mathlib.Core.Path.{◌≡◌}
use mathlib.Core.Bool.{true, false}
use mathlib.Core.List.{List, [], ◌∷◌}
use native.Mathlib.Omega.{arith}
use ganglion.Prelude.Tests.{if◌then◌else◌, Eq, ◌==◌}
use ganglion.Prelude.Lists.{length, contains, get_or, All, Distinct}

module _ {ℓ} {A : Type ℓ} ⦃e : Eq A⦄ where
  drop_first : A → List A → List A
  drop_first x [] = []
  drop_first x (y ∷ ys) = if y == x then ys else y ∷ drop_first x ys

  length-drop_first :
      (x : A) (ys : List A) → contains ys x ≡ true → length ys ≡ suc (length (drop_first x ys))
  unfolding drop_first
  length-drop_first x [] h = cc
  length-drop_first x (y ∷ ys) h = ground (arith, length-drop_first x ys)

  contains-drop_first :
      (x z : A) (ys : List A)
      → (z == x) ≡ false
      → contains ys z ≡ true
      → contains (drop_first x ys) z ≡ true
  unfolding drop_first
  contains-drop_first x z [] n h = cc
  contains-drop_first x z (y ∷ ys) n h =
      ground
        (arith, contains-drop_first x z ys n, e.equals_iff y x, e.equals_iff y z, e.equals_iff z x)

  All-drop_first :
      (x : A) (xs ys : List A)
      → contains xs x ≡ false
      → All (λ z. contains ys z ≡ true) xs
      → All (λ z. contains (drop_first x ys) z ≡ true) xs
  All-drop_first x [] ys n h = tt
  All-drop_first x (z ∷ zs) ys n h =
      (contains-drop_first x z ys (ground arith) h.0, All-drop_first x zs ys (ground arith) h.1)

  -- A list without repetition is no longer than one that has all its elements.
  pub length-le_of_contains :
      (xs ys : List A) → Distinct xs → All (λ z. contains ys z ≡ true) xs → length xs ≤ length ys
  length-le_of_contains [] ys d h = omega arith
  length-le_of_contains (x ∷ xs) ys d h = omega (
    arith,
    length-drop_first x ys h.0,
    length-le_of_contains xs (drop_first x ys) d.1 (All-drop_first x xs ys d.0 h.1),
  )

  pub contains-get_or :
      (xs : List A) (i : ℕ) (d : A) → i < length xs → contains xs (get_or xs i d) ≡ true
  contains-get_or [] i d h = absurd (omega arith)
  contains-get_or (x ∷ xs) zero d h = ground (arith, e.equals_iff x x)
  contains-get_or (x ∷ xs) (suc i) d h = ground (arith, contains-get_or xs i d (omega arith))

module _ {ℓ κ} {A : Type ℓ} where
  pub All-of_get_or :
      (P : A → Type κ) (xs : List A) (d : A)
      → ((i : ℕ) → i < length xs → P (get_or xs i d))
      → All P xs
  All-of_get_or P [] d h = tt
  All-of_get_or P (x ∷ xs) d h =
      (h 0 (omega arith), All-of_get_or P xs d (λ i l. h (suc i) (omega arith)))
