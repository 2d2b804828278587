-- ===== src/Controller/Tests.antt =====
-- A tick over two ideas, one of which is building.
use finalbuilds.Prelude.{
  ℕ, ◌+◌, ◌≤◌, String, true, List, [], ◌∷◌, ◌≡◌, ◌⊎◌, refl, All, leb, arith, ◌++◌,
}
use finalbuilds.Prelude.Exec.{Exec, Outcome, ok, for_each, ◌>>=◌, ◌>>◌}
use finalbuilds.Model.Value.{Document, null, bool, str}
use finalbuilds.Graph.InMemory.{
  Graph, Entity, empty, find_entities, upsert_entity, link, present, connect,
}
use finalbuilds.Event.Bus.{World, BusError, Handlers, emit, append_event, project}
use finalbuilds.Event.Projector.{project_event, cases, on_build, put, join_if, on_task}
use finalbuilds.Controller.Candidates.{Scoring, active_count, builds_of, ideas_of}
use finalbuilds.Controller.Factory.{Fresh, Started, tick, call}
use finalbuilds.Controller.Capacity.{IsOpenIdea, tick_within}

abbrev idea : String → Entity
idea id = record { id = id; type = "Idea"; name = str id; document = [] }

abbrev build : Entity
build = record {
  id = "build_0";
  type = "BuildRun";
  name = null;
  document = ("status", str "running") ∷ ("idea_id", str "idea_a") ∷ [];
}

abbrev graph : Graph
graph = record empty {
  entities = ("idea_a", idea "idea_a") ∷ ("idea_b", idea "idea_b") ∷ ("build_0", build) ∷ [];
}

total : (s t : ℕ) → (leb t s ≡ true) ⊎ (leb s t ≡ true)
total s t = ground arith

trans : (s t u : ℕ) → leb t s ≡ true → leb u t ≡ true → leb u s ≡ true
trans s t u h k = ground arith

abbrev scoring : Scoring
scoring = record {
  Total = ℕ;
  total_of = λ c. 13;
  evaluation = λ c. null;
  at_least = λ s t. leb t s;
  at_least_total = total;
  at_least_trans = trans;
  collates = λ a b. true;
  min_build_score = 12;
}

abbrev fresh : Fresh
fresh = record {
  build_id = λ n. "build_1";
  task_id = λ n. "task_1";
  queued = λ n. record { event_id = "evt_1"; time = "t" };
  created = λ n. record { event_id = "evt_2"; time = "t" };
  answered = λ n. record { event_id = "evt_3"; time = "t" };
}

abbrev handlers : Handlers (List Document) String
handlers = []

-- A dispatcher that keeps the tasks and accepts them.
abbrev dispatch : Document → Exec (List Document) String Document
dispatch task d = (ok (("accepted", bool true) ∷ []), d ++ task ∷ [])

abbrev world : World (List Document)
world = record { log = []; graph = graph; outer = [] }

abbrev ticked : Outcome (BusError String) (ℕ × List Started) × World (List Document)
ticked = tick handlers dispatch scoring [] fresh 2 5 world

abbrev only : Started
only = record {
  idea = "idea_b";
  build = "build_1";
  task = "task_1";
  answer = ("accepted", bool true) ∷ [];
}

ran : ticked ≡ (ok (1, only ∷ []), ticked.1)
unfolding tick ◌>>=◌ ◌>>◌ emit for_each call project_event find_entities append_event project cases
    on_build put upsert_entity join_if link present on_task connect
ran = refl

room : active_count (builds_of graph) ≤ 2
unfolding find_entities
room = omega arith

tick_within_example :
    (1 ≡ active_count (builds_of graph))
    × (1 + 1 ≤ 2)
    × (1 ≤ 5)
    × All (λ s. IsOpenIdea (ideas_of graph) (builds_of graph) s.idea) (only ∷ [])
tick_within_example =
    tick_within handlers dispatch scoring [] fresh 2 5 1 (only ∷ []) world ticked.1 ran room
