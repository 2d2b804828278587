-- ===== src/Planner/Best.antt =====
-- What `select` of src/planner/idea-planner.js chooses.
use mathlib.Core.Bool.{false≢true}
use finalbuilds.Prelude.{
  ℕ, zero, suc, ◌+◌, ◌-◌, ◌≤◌, min, arith, Bool, true, false, ◌≡◌, refl, sym, ◌∙◌, ◌⊎◌, inl, inr,
  subst, List, [], ◌∷◌, keep, take, length, length-take-le, In, Bool-cases, if◌then◌else◌,
}
use finalbuilds.Planner.Select.{Scale, comes_first, place, rank, select}

module _ (scale : Scale) where
  open scale use {Idea, total_of, at_least, at_least_total, at_least_trans, min_build_score}

  -- The first idea's total is at least the second's.
  abbrev pub IsNoWorse : Idea → Idea → Type 0
  IsNoWorse a b = at_least (total_of a) (total_of b) ≡ true

  -- No idea is worse than one behind it.
  abbrev pub IsRanked : List Idea → Type 0
  IsRanked [] = Unit
  IsRanked (a ∷ ideas) = ((b : Idea) → In b ideas → IsNoWorse a b) × IsRanked ideas

  first-IsNoWorse : (a b : Idea) → comes_first scale a b ≡ true → IsNoWorse a b
  unfolding comes_first
  first-IsNoWorse a b h = ground arith

  other-IsNoWorse : (a b : Idea) → comes_first scale a b ≡ false → IsNoWorse b a
  unfolding comes_first
  other-IsNoWorse a b h = elim (at_least_total (total_of a) (total_of b)) [
    | inr back ↦ back
    | inl forth ↦ ground arith
  ]

  In-place : (a b : Idea) (ideas : List Idea) → In b (place scale a ideas) → (b ≡ a) ⊎ In b ideas
  unfolding place
  In-place a b [] (inl same) = inl same
  In-place a b [] (inr nothing) = absurd nothing
  In-place a b (c ∷ ideas) at = by_test (comes_first scale a c) at (In-place a b ideas)
    where
      by_test :
          (t : Bool)
          → In b (if t then a ∷ c ∷ ideas else c ∷ place scale a ideas)
          → (In b (place scale a ideas) → (b ≡ a) ⊎ In b ideas)
          → (b ≡ a) ⊎ In b (c ∷ ideas)
      by_test true (inl same) rec = inl same
      by_test true (inr rest) rec = inr rest
      by_test false (inl same) rec = inr (inl same)
      by_test false (inr rest) rec = elim (rec rest) [
        | inl same ↦ inl same
        | inr old ↦ inr (inr old)
      ]

  place-IsRanked : (a : Idea) (ideas : List Idea) → IsRanked ideas → IsRanked (place scale a ideas)
  unfolding place
  place-IsRanked a [] h = (λ b at. absurd at, tt)
  place-IsRanked a (c ∷ ideas) h = elim (Bool-cases (comes_first scale a c)) [
    | inl first ↦
        rw (place, first)
          (
            λ b at. elim at [
              | inl same ↦ subst (IsNoWorse a) (sym same) (first-IsNoWorse a c first)
              | inr rest ↦ at_least_trans _ _ _ (first-IsNoWorse a c first) (h.0 b rest)
            ],
            h,
          )
    | inr other ↦
        rw (place, other)
          (
            λ b at. elim (In-place a b ideas at) [
              | inl same ↦ subst (IsNoWorse c) (sym same) (other-IsNoWorse a c other)
              | inr old ↦ h.0 b old
            ],
            place-IsRanked a ideas h.1,
          )
  ]

  rank-IsRanked : (ideas : List Idea) → IsRanked (rank scale ideas)
  unfolding rank
  rank-IsRanked [] = tt
  rank-IsRanked (a ∷ ideas) = place-IsRanked a (rank scale ideas) (rank-IsRanked ideas)

  In-place_self : (a : Idea) (ideas : List Idea) → In a (place scale a ideas)
  unfolding place
  In-place_self a [] = inl refl
  In-place_self a (c ∷ ideas) = elim (Bool-cases (comes_first scale a c)) [
    | inl first ↦ rw (place, first) (inl refl)
    | inr other ↦ rw (place, other) (inr (In-place_self a ideas))
  ]

  In-place_old : (a b : Idea) (ideas : List Idea) → In b ideas → In b (place scale a ideas)
  unfolding place
  In-place_old a b [] at = absurd at
  In-place_old a b (c ∷ ideas) at = elim (Bool-cases (comes_first scale a c)) [
    | inl first ↦ rw (place, first) (inr at)
    | inr other ↦
        rw (place, other)
          (elim at [ inl same ↦ inl same | inr rest ↦ inr (In-place_old a b ideas rest) ])
  ]

  In-rank : (b : Idea) (ideas : List Idea) → In b ideas → In b (rank scale ideas)
  unfolding rank
  In-rank b [] at = absurd at
  In-rank b (a ∷ ideas) (inl same) =
      subst (λ x. In x (place scale a (rank scale ideas))) (sym same)
        (In-place_self a (rank scale ideas))
  In-rank b (a ∷ ideas) (inr rest) = In-place_old a b (rank scale ideas) (In-rank b ideas rest)

  In-of_rank : (b : Idea) (ideas : List Idea) → In b (rank scale ideas) → In b ideas
  unfolding rank
  In-of_rank b [] at = absurd at
  In-of_rank b (a ∷ ideas) at = elim (In-place a b (rank scale ideas) at) [
    | inl same ↦ inl same
    | inr old ↦ inr (In-of_rank b ideas old)
  ]

  module _ (p : Idea → Bool) where
    In-of_keep : (b : Idea) (ideas : List Idea) → In b (keep p ideas) → In b ideas × (p b ≡ true)
    In-of_keep b [] at = absurd at
    In-of_keep b (a ∷ ideas) at = elim (Bool-cases (p a)) [
      | inr out ↦ let (old, yes_b) = In-of_keep b ideas (rw (out) at (at)) in (inr old, yes_b)
      | inl into ↦ elim (rw (into) at (at)) [
        | inl same ↦ (inl same, subst (λ x. p x ≡ true) (sym same) into)
        | inr rest ↦ let (old, yes_b) = In-of_keep b ideas rest in (inr old, yes_b)
      ]
    ]

    In-keep : (b : Idea) (ideas : List Idea) → In b ideas → p b ≡ true → In b (keep p ideas)
    In-keep b [] at h = absurd at
    In-keep b (a ∷ ideas) at h = elim (Bool-cases (p a)) [
      | inl into ↦
          rw (into) (elim at [ inl same ↦ inl same | inr rest ↦ inr (In-keep b ideas rest h) ])
      | inr out ↦ rw (out) (elim at [
        | inl same ↦ absurd (false≢true (sym out ∙ subst (λ x. p x ≡ true) same h))
        | inr rest ↦ In-keep b ideas rest h
      ])
    ]

    keep-IsRanked : (ideas : List Idea) → IsRanked ideas → IsRanked (keep p ideas)
    keep-IsRanked [] h = tt
    keep-IsRanked (a ∷ ideas) h = elim (Bool-cases (p a)) [
      | inl into ↦ rw (into) (λ b at. h.0 b (In-of_keep b ideas at).0, keep-IsRanked ideas h.1)
      | inr out ↦ rw (out) (keep-IsRanked ideas h.1)
    ]

  In-of_take : (n : ℕ) (i : Idea) (ideas : List Idea) → In i (take n ideas) → In i ideas
  In-of_take zero i ideas at = absurd at
  In-of_take (suc n) i [] at = absurd at
  In-of_take (suc n) i (a ∷ ideas) (inl same) = inl same
  In-of_take (suc n) i (a ∷ ideas) (inr rest) = inr (In-of_take n i ideas rest)

  take_best :
      (n : ℕ) (i j : Idea) (ideas : List Idea)
      → IsRanked ideas
      → In i (take n ideas)
      → In j ideas
      → In j (take n ideas) ⊎ IsNoWorse i j
  take_best zero i j ideas h at there = absurd at
  take_best (suc n) i j [] h at there = absurd at
  take_best (suc n) i j (a ∷ ideas) h at (inl is_first) = inl (inl is_first)
  take_best (suc n) i j (a ∷ ideas) h (inl same) (inr later) =
      inr (subst (λ x. IsNoWorse x j) (sym same) (h.0 j later))
  take_best (suc n) i j (a ∷ ideas) h (inr rest) (inr later) =
      elim (take_best n i j ideas h.1 rest later) [
        | inl taken ↦ inl (inr taken)
        | inr worse ↦ inr worse
      ]

  abbrev is_admitted : Idea → Bool
  is_admitted i = at_least (total_of i) min_build_score

  -- With at most `maxBuilding` active builds, the choice takes them to `maxBuilding` at most, and it is
  -- no longer than the limit.
  pub select_capacity :
      (ideas : List Idea) (limit active max_building : ℕ)
      → active ≤ max_building
      → (active + length (select scale ideas limit active max_building) ≤ max_building)
        × (length (select scale ideas limit active max_building) ≤ limit)
  unfolding select
  select_capacity ideas limit active max_building room =
      let short =
        length-take-le (min limit (max_building - active)) (keep is_admitted (rank scale ideas)) in
      (ground arith, ground arith)

  pub In-of_select :
      (ideas : List Idea) (limit active max_building : ℕ) (i : Idea)
      → In i (select scale ideas limit active max_building)
      → In i ideas
  unfolding select
  In-of_select ideas limit active max_building i at =
      let n = min limit (max_building - active) in
      let ranked = rank scale ideas in
      In-of_rank i ideas
        (In-of_keep is_admitted i ranked (In-of_take n i (keep is_admitted ranked) at)).0

  -- A chosen idea is one of the ideas, with a total of at least the least of a build, and an idea with
  -- such a total that is not chosen has no greater total.
  pub select_best :
      (ideas : List Idea) (limit active max_building : ℕ) (i j : Idea)
      → In i (select scale ideas limit active max_building)
      → In j ideas
      → at_least (total_of j) min_build_score ≡ true
      → In i ideas
        × (at_least (total_of i) min_build_score ≡ true)
        × (In j (select scale ideas limit active max_building)
            ⊎ (at_least (total_of i) (total_of j) ≡ true))
  unfolding select
  select_best ideas limit active max_building i j at there admitted =
      let n = min limit (max_building - active) in
      let ranked = rank scale ideas in
      let (old, good) =
        In-of_keep is_admitted i ranked (In-of_take n i (keep is_admitted ranked) at) in
      (
        In-of_rank i ideas old,
        good,
        take_best n i j (keep is_admitted ranked)
            (keep-IsRanked is_admitted ranked (rank-IsRanked ideas)) at
            (In-keep is_admitted j ranked (In-rank j ideas there) admitted),
      )
