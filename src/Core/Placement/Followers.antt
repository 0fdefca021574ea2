-- ===== src/Core/Placement/Followers.antt =====
-- The followers that `gather_followers` chooses.
use mathlib.Core.Path.{subst}
use native.Mathlib.Decide.{dec_lt}
use ganglion.Prelude.{
  ℕ, zero, suc, ◌+◌, ◌*◌, ◌%◌, ◌≤◌, ◌<◌, true, false, List, [], ◌∷◌, ◌++◌, ◌==◌, ltb, ◌≡◌, ◌⊎◌, inl,
  inr, arith, length, get_or, contains, All, Distinct, Distinct-snoc, All-append, contains-append,
  contains-get_or, Bool-cases, if_both,
}
use ganglion.Core.Model.{Str, str_eq}
use ganglion.Core.Placement.{keep_followers, add_candidate, fill_followers}

-- Live nodes other than the owner, none twice.
pub record IsFollowerSet (owner : Str) (node_ids followers : List Str) : Type 0 where
  pub distinct : Distinct followers
  pub live : All (λ f. contains node_ids f ≡ true) followers
  pub not_owner : contains followers owner ≡ false

module _ (owner : Str) (node_ids : List Str) where
  snoc-IsFollowerSet :
      (fs : List Str) (f : Str)
      → IsFollowerSet owner node_ids fs
      → (f == owner) ≡ false
      → contains fs f ≡ false
      → contains node_ids f ≡ true
      → IsFollowerSet owner node_ids (fs ++ f ∷ [])
  snoc-IsFollowerSet fs f s o n l = record {
    distinct = Distinct-snoc fs f s.distinct n;
    live = All-append (λ f. contains node_ids f ≡ true) fs (f ∷ []) s.live (l, tt);
    not_owner = ground (arith, contains-append fs (f ∷ []) owner, s.not_owner);
  }

  pub keep_followers-IsFollowerSet :
      (old fs : List Str)
      → IsFollowerSet owner node_ids fs
      → IsFollowerSet owner node_ids (keep_followers owner node_ids old fs)
  unfolding keep_followers
  keep_followers-IsFollowerSet [] fs s = s
  keep_followers-IsFollowerSet (node ∷ rest) fs s = elim (Bool-cases (node == owner)) [
    | inl o ↦ rw o (keep_followers-IsFollowerSet rest fs s)
    | inr o ↦ elim (Bool-cases (contains fs node)) [
      | inl c ↦ rw (o, c) (keep_followers-IsFollowerSet rest fs s)
      | inr c ↦ elim (Bool-cases (contains node_ids node)) [
        | inl l ↦
            rw (o, c, l)
              (keep_followers-IsFollowerSet rest (fs ++ node ∷ [])
                (snoc-IsFollowerSet fs node s o c l))
        | inr l ↦ rw (o, c, l) (keep_followers-IsFollowerSet rest fs s)
      ]
    ]
  ]

  add_candidate-IsFollowerSet :
      (candidate : Str) (fs : List Str)
      → contains node_ids candidate ≡ true
      → IsFollowerSet owner node_ids fs
      → IsFollowerSet owner node_ids (add_candidate owner candidate fs)
  unfolding add_candidate
  add_candidate-IsFollowerSet candidate fs l s = elim (Bool-cases (candidate == owner)) [
    | inl o ↦ rw o s
    | inr o ↦ elim (Bool-cases (contains fs candidate)) [
      | inl c ↦ rw (o, c) s
      | inr c ↦ rw (o, c) (snoc-IsFollowerSet fs candidate s o c l)
    ]
  ]

  -- A candidate is the owner or a follower once its round is over, and no follower is lost.
  contains-add_candidate :
      (candidate : Str) (fs : List Str)
      → contains (owner ∷ add_candidate owner candidate fs) candidate ≡ true
  unfolding add_candidate
  contains-add_candidate candidate fs = ground (
    arith,
    contains-append fs (candidate ∷ []) candidate,
    str_eq.equals_iff candidate candidate,
    str_eq.equals_iff candidate owner,
    str_eq.equals_iff owner candidate,
  )

  contains-add_candidate_old :
      (candidate z : Str) (fs : List Str)
      → contains fs z ≡ true
      → contains (add_candidate owner candidate fs) z ≡ true
  unfolding add_candidate
  contains-add_candidate_old candidate z fs h =
      ground (arith, contains-append fs (candidate ∷ []) z)

  module _ (target owner_index : ℕ) (some_nodes : 0 < length node_ids) where
    unfoldable pub candidate_at : ℕ → Str
    candidate_at cursor = get_or node_ids ((owner_index + cursor) % length node_ids) []

    contains-candidate_at : (cursor : ℕ) → contains node_ids (candidate_at cursor) ≡ true
    unfolding candidate_at
    contains-candidate_at cursor = contains-get_or node_ids _ [] (omega arith)

    pub fill_followers-IsFollowerSet :
        (fuel cursor : ℕ) (fs : List Str)
        → IsFollowerSet owner node_ids fs
        → IsFollowerSet owner node_ids
            (fill_followers fuel owner target node_ids owner_index cursor fs)
    unfolding fill_followers candidate_at
    fill_followers-IsFollowerSet zero cursor fs s = s
    fill_followers-IsFollowerSet (suc fuel) cursor fs s =
        let added = add_candidate-IsFollowerSet _ fs (contains-candidate_at cursor) s in
        if_both (IsFollowerSet owner node_ids) (ltb (length fs) target) _ fs
          (if_both (IsFollowerSet owner node_ids) (ltb (length node_ids * 2) (cursor + 1)) _ _ added
            (fill_followers-IsFollowerSet fuel (cursor + 1) _ added))
          s

    fill_followers_keeps :
        (fuel cursor : ℕ) (fs : List Str) (z : Str)
        → contains fs z ≡ true
        → contains (fill_followers fuel owner target node_ids owner_index cursor fs) z ≡ true
    unfolding fill_followers candidate_at
    fill_followers_keeps zero cursor fs z h = h
    fill_followers_keeps (suc fuel) cursor fs z h =
        let kept = contains-add_candidate_old (candidate_at cursor) z fs h in
        if_both (λ r. contains r z ≡ true) (ltb (length fs) target) _ fs
          (if_both (λ r. contains r z ≡ true) (ltb (length node_ids * 2) (cursor + 1)) _ _ kept
            (fill_followers_keeps fuel (cursor + 1) _ z kept))
          h

    -- The candidate of a round is covered by the list that any later rounds make of it.
    round_covers :
        (fuel cursor : ℕ) (fs : List Str)
        → contains
            (owner
              ∷ fill_followers fuel owner target node_ids owner_index
                  (cursor + 1)
                  (add_candidate owner (candidate_at cursor) fs))
            (candidate_at cursor)
          ≡ true
    round_covers fuel cursor fs =
        let c = candidate_at cursor in
        ground (
          arith,
          contains-add_candidate c fs,
          fill_followers_keeps fuel (cursor + 1) (add_candidate owner c fs) c,
        )

    -- The loop ends with enough followers, or with every candidate from the cursor on tried.
    pub fill_followers_covers :
        (fuel cursor : ℕ) (fs : List Str)
        → fuel + cursor ≡ length node_ids * 2 + 1
        → (target ≤ length (fill_followers fuel owner target node_ids owner_index cursor fs))
          ⊎ ((j : ℕ)
              → cursor ≤ j
              → j ≤ length node_ids * 2
              → contains
                  (owner ∷ fill_followers fuel owner target node_ids owner_index cursor fs)
                  (candidate_at j)
                ≡ true)
    unfolding fill_followers candidate_at
    fill_followers_covers zero cursor fs h = inr (λ j l u. absurd (omega arith))
    fill_followers_covers (suc fuel) cursor fs h =
        let c = candidate_at cursor in
        let added = add_candidate owner c fs in
        elim (Bool-cases (ltb (length fs) target)) [
          | inr enough ↦ inl (ground arith)
          | inl room ↦ elim (Bool-cases (ltb (length node_ids * 2) (cursor + 1))) [
            | inl stop ↦ inr (λ j l u.
                let here : cursor ≡ j = ground arith in
                rw (room, stop)
                  (subst (λ k. contains (owner ∷ added) (candidate_at k) ≡ true) here
                    (contains-add_candidate c fs)))
            | inr go ↦
                rw (room, go)
                  (elim (fill_followers_covers fuel (cursor + 1) added (omega arith)) [
                    | inl enough ↦ inl enough
                    | inr covered ↦ inr (λ j l u. elim (dec_lt cursor j) [
                      | yes later ↦ covered j (omega arith) u
                      | no not_later ↦
                          let here : cursor ≡ j = omega arith in
                          subst
                            (λ k.
                              contains
                                (owner
                                  ∷ fill_followers fuel owner target node_ids owner_index
                                      (cursor + 1) added)
                                (candidate_at k)
                              ≡ true)
                            here (round_covers fuel cursor fs)
                    ])
                  ])
          ]
        ]
