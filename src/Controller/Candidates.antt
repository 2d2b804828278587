-- ===== src/Controller/Candidates.antt =====
-- The ideas that `FactoryController.tick` hands to the planner (src/controller/factory-controller.js), and
-- their totals, which come from outside.
use finalbuilds.Prelude.{
  ℕ, String, Bool, true, false, not, ◌&&◌, ◌||◌, some, List, [], ◌∷◌, ◌++◌, ◌≡◌, ◌⊎◌, map, keep,
  any, length, ◌==◌, if◌then◌else◌,
}
use finalbuilds.Prelude.Text.{includes}
use finalbuilds.Model.Value.{Value, Document, str, obj, end, get, or_nullish, array}
use finalbuilds.Model.EntityType
use finalbuilds.Graph.InMemory.{Graph, Entity, find_entities}
use finalbuilds.Planner.Select.{Scale}

-- What `tick` hands to the planner of an idea.
pub record Candidate : Type 0 where
  pub id : String
  pub name : Value
  pub scores : Value
  pub document : Document
  pub aligned : Bool

-- The planner's totals of candidates, and the evaluation that it adds to one.
pub record Scoring : Type 1 where
  pub Total : Type 0
  pub total_of : Candidate → Total
  pub evaluation : Candidate → Value
  pub at_least : Total → Total → Bool
  pub at_least_total : (s t : Total) → (at_least s t ≡ true) ⊎ (at_least t s ≡ true)
  pub at_least_trans :
      (s t u : Total) → at_least s t ≡ true → at_least t u ≡ true → at_least s u ≡ true
  pub collates : String → String → Bool
  pub min_build_score : Total

abbrev pub scale_of : Scoring → Scale
scale_of scoring = record {
  Idea = Candidate;
  Total = scoring.Total;
  id_of = λ c. c.id;
  total_of = scoring.total_of;
  at_least = scoring.at_least;
  at_least_total = scoring.at_least_total;
  at_least_trans = scoring.at_least_trans;
  collates = scoring.collates;
  min_build_score = scoring.min_build_score;
}

abbrev is_str : String → Value → Bool
is_str s (str t) = t == s
is_str s v = false

-- `active`
abbrev pub active_count : List Entity → ℕ
active_count builds = length (keep (λ b. is_str "running" (get "status" b.document)) builds)

-- The build does not exclude its idea.
abbrev is_over : Entity → Bool
is_over b = is_str "rejected" (get "status" b.document) || is_str "failed" (get "status" b.document)

abbrev idea_ids : List Entity → List String
idea_ids [] = []
idea_ids (b ∷ builds) = elim (get "idea_id" b.document) [
  | str id ↦ (if id == "" then idea_ids builds else id ∷ idea_ids builds)
  | _ ↦ idea_ids builds
]

-- `already`, as far as it has texts.
unfoldable pub already : List Entity → List String
already builds = idea_ids (keep (λ b. not (is_over b)) builds)

abbrev in_classes : List String → Value → Bool
in_classes limits (str c) = includes limits c
in_classes limits v = false

unfoldable pub candidate_of : List String → Entity → Candidate
candidate_of limits i = record {
  id = i.id;
  name = i.name;
  scores = or_nullish (get "scores" i.document) (obj end);
  document = i.document;
  aligned =
      any (is_str "H1_chatgpt_doomed") (array (get "hypothesis_parents" i.document))
      && any (in_classes limits) (array (get "limit_classes" i.document));
}

-- `sort((a, b) => Number(b.aligned) - Number(a.aligned))` is stable.
abbrev pub aligned_first : List Candidate → List Candidate
aligned_first cs = keep (λ c. c.aligned) cs ++ keep (λ c. not c.aligned) cs

unfoldable pub candidates : List String → List Entity → List Entity → List Candidate
unfolding candidate_of already
candidates limits ideas builds =
    aligned_first
      (map (candidate_of limits) (keep (λ i. not (includes (already builds) i.id)) ideas))

abbrev pub builds_of : Graph → List Entity
builds_of g = find_entities (some EntityType.build_run) (λ _. true) g

abbrev pub ideas_of : Graph → List Entity
ideas_of g = find_entities (some EntityType.idea) (λ _. true) g
