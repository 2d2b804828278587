-- ===== src/Planner/Select.antt =====
-- `IdeaPlanner` (src/planner/idea-planner.js). The totals of the evaluations and `localeCompare` come
-- from outside. `sort` is stable: an insertion before the first that comes no earlier.
use finalbuilds.Prelude.{
  ℕ, ◌-◌, min, String, Bool, true, false, List, [], ◌∷◌, keep, take, if◌then◌else◌,
}
use finalbuilds.Prelude.{◌≡◌, ◌⊎◌}

-- The ideas with their ids; the totals that `rank` gives them, with `>=`; the least total of a build;
-- `a.localeCompare(b) <= 0`.
pub record Scale : Type 1 where
  pub Idea : Type 0
  pub Total : Type 0
  pub id_of : Idea → String
  pub total_of : Idea → Total
  pub at_least : Total → Total → Bool
  pub at_least_total : (s t : Total) → (at_least s t ≡ true) ⊎ (at_least t s ≡ true)
  pub at_least_trans :
      (s t u : Total) → at_least s t ≡ true → at_least t u ≡ true → at_least s u ≡ true
  pub collates : String → String → Bool
  pub min_build_score : Total

module _ (scale : Scale) where
  open scale use {Idea, id_of, total_of, at_least, collates, min_build_score}

  -- The comparison of `rank` is not positive.
  unfoldable pub comes_first : Idea → Idea → Bool
  comes_first a b =
      if at_least (total_of a) (total_of b)
      then (if at_least (total_of b) (total_of a) then collates (id_of a) (id_of b) else true)
      else false

  unfoldable pub place : Idea → List Idea → List Idea
  unfolding comes_first
  place a [] = a ∷ []
  place a (b ∷ ideas) = if comes_first a b then a ∷ b ∷ ideas else b ∷ place a ideas

  -- `rank(ideas)`
  unfoldable pub rank : List Idea → List Idea
  unfolding place
  rank [] = []
  rank (a ∷ ideas) = place a (rank ideas)

  -- `select(ideas, { limit, activeCount, maxBuilding })`
  unfoldable pub select : List Idea → ℕ → ℕ → ℕ → List Idea
  unfolding rank
  select ideas limit active_count max_building =
      take (min limit (max_building - active_count))
        (keep (λ i. at_least (total_of i) min_build_score) (rank ideas))
