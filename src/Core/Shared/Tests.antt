-- ===== src/Core/Shared/Tests.antt =====
-- Handles of a sample heap.
use ganglion.Prelude.{ℕ, some, none, [], ◌∷◌, ◌≡◌, refl, ◌+◌, map}
use ganglion.Core.Shared.{Heap, new, clone, deref, deref_mut}
use ganglion.Core.Shared.Values.{Counts, Changes, new-Counts, clone-Counts, deref_mut-Changes}

abbrev empty : Heap ℕ
empty = record { cells = λ b. none; next = 0 }

empty-Counts : Counts empty []
empty-Counts = record { counted = λ b. refl; positive = λ b c e. cc; fresh = λ b n. refl }

abbrev one : Heap ℕ
one = (new empty 5).1

one-Counts : Counts one (0 ∷ [])
unfolding new
one-Counts = (new-Counts empty [] 5 empty-Counts).0

-- Two handles that share an allocation.
abbrev two : Heap ℕ
two = (clone one 0).1

two-Counts : Counts two (0 ∷ 0 ∷ [])
unfolding new clone
two-Counts = (clone-Counts one [] [] 0 one-Counts).0

-- A write through the second handle moves it to a copy.
copies :
    ((deref_mut two 0 (λ n. n + 1)).0 ≡ 1)
    × (map (deref (deref_mut two 0 (λ n. n + 1)).1) (0 ∷ 1 ∷ []) ≡ some 5 ∷ some 6 ∷ [])
unfolding deref_mut deref new clone
copies = (refl, refl)

deref_mut-Changes_example : Changes two (0 ∷ []) [] 0 (λ n. n + 1) (deref_mut two 0 (λ n. n + 1))
deref_mut-Changes_example = deref_mut-Changes two (0 ∷ []) [] 0 (λ n. n + 1) two-Counts
