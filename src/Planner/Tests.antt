-- ===== src/Planner/Tests.antt =====
-- Three ideas and a capacity of one, and the theorems on the choice at them.
use finalbuilds.Prelude.{ℕ, String, true, ◌≡◌, refl, ◌⊎◌, inl, inr, List, [], ◌∷◌, leb, arith, In}
use finalbuilds.Planner.Select.{Scale, comes_first, place, rank, select}
use finalbuilds.Planner.Best.{select_best}

abbrev scale : Scale
scale = record {
  Idea = String × ℕ;
  Total = ℕ;
  id_of = λ i. i.0;
  total_of = λ i. i.1;
  at_least = λ s t. leb t s;
  at_least_total = λ s t. ground arith;
  at_least_trans = λ s t u h k. ground arith;
  collates = λ a b. true;
  min_build_score = 12;
}

abbrev ideas : List (String × ℕ)
ideas = ("low", 4) ∷ ("good", 13) ∷ ("best", 17) ∷ []

select_test : select scale ideas 3 1 2 ≡ ("best", 17) ∷ []
unfolding select rank place comes_first
select_test = refl

best_chosen : In ("best", 17) (select scale ideas 3 1 2)
unfolding select rank place comes_first
best_chosen = inl refl

select_best_example :
    In ("best", 17) ideas
    × (leb 12 17 ≡ true)
    × (In ("good", 13) (select scale ideas 3 1 2) ⊎ (leb 13 17 ≡ true))
select_best_example =
    select_best scale ideas 3 1 2 ("best", 17) ("good", 13) best_chosen (inr (inl refl)) refl
