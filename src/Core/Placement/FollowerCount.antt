-- ===== src/Core/Placement/FollowerCount.antt =====
-- How many followers `gather_followers` chooses.
use mathlib.Core.Path.{subst}
use native.Mathlib.Nat.{mod-eq_of_lt, add-mod_right}
use ganglion.Prelude.{
  ℕ, ◌+◌, ◌-◌, ◌*◌, ◌%◌, ◌≤◌, ◌<◌, min, Option, true, List, [], ◌∷◌, ◌||◌, leb, eqb, ◌≡◌, ◌⊎◌, inl,
  inr, refl, arith, length, take, get_or, contains, contains-take, All, Distinct, Distinct-take,
  All-take, length-take, length-le_of_contains, All-of_get_or, Bool-cases, if_both,
}
use ganglion.Core.Model.{Str, str_eq, PartitionAssignment}
use ganglion.Core.Placement.{
  keep_followers, fill_followers, existing_followers, position_or_zero, gather_followers,
}
use ganglion.Core.Placement.Followers.{
  IsFollowerSet, keep_followers-IsFollowerSet, fill_followers-IsFollowerSet, candidate_at,
  fill_followers_covers,
}

take-IsFollowerSet :
    (owner : Str) (node_ids : List Str) (n : ℕ) (fs : List Str)
    → IsFollowerSet owner node_ids fs
    → IsFollowerSet owner node_ids (take n fs)
take-IsFollowerSet owner node_ids n fs s = record {
  distinct = Distinct-take n fs s.distinct;
  live = All-take (λ f. contains node_ids f ≡ true) n fs s.live;
  not_owner = contains-take n fs owner s.not_owner;
}

empty-IsFollowerSet : (owner : Str) (node_ids : List Str) → IsFollowerSet owner node_ids []
empty-IsFollowerSet owner node_ids = record { distinct = tt; live = tt; not_owner = refl }

-- Followers are live nodes other than the owner, none twice, whatever the earlier assignment was.
pub gather_followers-IsFollowerSet :
    (owner : Str) (target : ℕ) (node_ids : List Str) (existing : Option PartitionAssignment)
    → IsFollowerSet owner node_ids (gather_followers owner target node_ids existing)
unfolding gather_followers
gather_followers-IsFollowerSet owner target node_ids existing =
    let kept = keep_followers owner node_ids (existing_followers existing) [] in
    let kept_set =
      keep_followers-IsFollowerSet owner node_ids (existing_followers existing) []
        (empty-IsFollowerSet owner node_ids) in
    elim (Bool-cases (leb (length node_ids) 1 || eqb target 0)) [
      | inl none_wanted ↦ rw none_wanted (empty-IsFollowerSet owner node_ids)
      | inr wanted ↦ rw wanted (
          if_both (IsFollowerSet owner node_ids) (leb target (length kept)) _ _
            (take-IsFollowerSet owner node_ids target kept kept_set)
            (take-IsFollowerSet owner node_ids target _ (
              fill_followers-IsFollowerSet owner node_ids target (position_or_zero node_ids owner)
                (ground arith) (length node_ids * 2) 1 kept kept_set)))
    ]

position_or_zero-lt :
    (node_ids : List Str) (owner : Str)
    → contains node_ids owner ≡ true
    → position_or_zero node_ids owner < length node_ids
unfolding position_or_zero
position_or_zero-lt [] owner h = cc
position_or_zero-lt (n ∷ ns) owner h = ground (arith, position_or_zero-lt ns owner)

-- The index at which the round `i + n - owner_index` looks.
round_index : (i n o : ℕ) → i < n → o < n → (o + (i + n - o)) % n ≡ i
round_index i n o l m =
    let whole : o + (i + n - o) ≡ i + n = omega arith in
    rw (whole, add-mod_right i n) (mod-eq_of_lt l)

-- Any follower set leaves out the owner, so it is smaller than the live nodes.
IsFollowerSet-bound :
    (owner : Str) (node_ids fs : List Str)
    → contains node_ids owner ≡ true
    → IsFollowerSet owner node_ids fs
    → length fs + 1 ≤ length node_ids
IsFollowerSet-bound owner node_ids fs h s =
    omega (arith, length-le_of_contains (owner ∷ fs) node_ids (s.not_owner, s.distinct) (h, s.live))

leb→le : (a b : ℕ) → leb a b ≡ true → a ≤ b
leb→le a b h = ground arith

none_needed : (n target : ℕ) → (leb n 1 || eqb target 0) ≡ true → 0 ≡ min target (n - 1)
none_needed n target h = elim (Bool-cases (leb n 1)) [
  | inl few ↦ omega (arith, leb→le n 1 few)
  | inr many ↦ let none_asked : target ≡ 0 = ground arith in omega arith
]

module _ (owner : Str) (target : ℕ) (node_ids : List Str) (distinct : Distinct node_ids)
    (live : contains node_ids owner ≡ true) where
  -- A fill that starts at the owner's place ends with enough followers or with all of them.
  fill_followers_all :
      (some_nodes : 0 < length node_ids) (fs : List Str)
      → let filled =
          fill_followers
            (length node_ids * 2)
            owner
            target
            node_ids
            (position_or_zero node_ids owner)
            1
            fs in
        (target ≤ length filled) ⊎ (length node_ids ≤ length filled + 1)
  unfolding candidate_at
  fill_followers_all some_nodes fs =
      let n = length node_ids in
      let o = position_or_zero node_ids owner in
      let filled = fill_followers (n * 2) owner target node_ids o 1 fs in
      let in_range : o < n = position_or_zero-lt node_ids owner live in
      elim (fill_followers_covers owner node_ids target o some_nodes (n * 2) 1 fs (omega arith)) [
        | inl enough ↦ inl enough
        | inr covered ↦ inr (
            let all : All (λ z. contains (owner ∷ filled) z ≡ true) node_ids =
              All-of_get_or (λ z. contains (owner ∷ filled) z ≡ true) node_ids []
                (λ i l.
                  subst (λ k. contains (owner ∷ filled) (get_or node_ids k []) ≡ true)
                    (round_index i n o l in_range)
                    (covered (i + n - o) (omega arith) (omega arith))) in
            omega (arith, length-le_of_contains node_ids (owner ∷ filled) distinct all))
      ]

  -- With a live owner there are as many followers as asked for, or all other live nodes.
  pub length-gather_followers :
      (existing : Option PartitionAssignment)
      → length (gather_followers owner target node_ids existing) ≡ min target (length node_ids - 1)
  unfolding gather_followers
  length-gather_followers existing =
      let n = length node_ids in
      let kept = keep_followers owner node_ids (existing_followers existing) [] in
      let kept_set =
        keep_followers-IsFollowerSet owner node_ids (existing_followers existing) []
          (empty-IsFollowerSet owner node_ids) in
      let o = position_or_zero node_ids owner in
      let in_range : o < n = position_or_zero-lt node_ids owner live in
      let some_nodes : 0 < n = omega arith in
      let filled = fill_followers (n * 2) owner target node_ids o 1 kept in
      let filled_set =
        fill_followers-IsFollowerSet owner node_ids target o some_nodes (n * 2) 1 kept kept_set in
      elim (Bool-cases (leb n 1 || eqb target 0)) [
        | inl none_wanted ↦ rw none_wanted (none_needed n target none_wanted)
        | inr wanted ↦ elim (Bool-cases (leb target (length kept))) [
          | inl enough ↦
              rw (wanted, enough)
                (omega (
                  arith,
                  leb→le target (length kept) enough,
                  length-take target kept,
                  IsFollowerSet-bound owner node_ids kept live kept_set,
                ))
          | inr more ↦
              rw (wanted, more)
                (omega (
                  arith,
                  length-take target filled,
                  IsFollowerSet-bound owner node_ids filled live filled_set,
                  fill_followers_all some_nodes kept,
                ))
        ]
      ]
