-- ===== src/Graph/Paths.antt =====
-- `findPaths` of src/graph/store.js: the breadth-first search that every graph store inherits, over
-- the store's own `neighbors` (here `next`). The `while` loop takes fuel.
pub mod Rounds
pub mod Fuel
pub mod Walks
pub mod Cover
pub mod Midway
pub mod Complete
use finalbuilds.Prelude.{
  ℕ, zero, suc, ◌+◌, min, String, Bool, true, false, Option, none, some, List, [], ◌∷◌, ◌++◌,
  length, leb, if◌then◌else◌,
}
use finalbuilds.Prelude.Text.{includes}
use finalbuilds.Prelude.Dict.{Dict, lookup, insert}
use finalbuilds.Graph.InMemory.{Edge, Entity, Neighbor}

pub record QueueItem : Type 0 where
  pub id : String
  pub path : List String
  pub edges : List Edge

pub record PathHit : Type 0 where
  pub entity : Entity
  pub path : List String
  pub edges : List Edge

pub record Search : Type 0 where
  pub results : List PathHit
  pub queue : List QueueItem
  pub best_depth : Dict ℕ

-- `prev === undefined || nextDepth <= prev + 2`
abbrev pub is_worth : Option ℕ → ℕ → Bool
is_worth none depth = true
is_worth (some prev) depth = leb depth (prev + 2)

-- `Math.min(prev ?? Infinity, nextDepth)`
abbrev pub lowest : Option ℕ → ℕ → ℕ
lowest none depth = depth
lowest (some prev) depth = min prev depth

pub record Options : Type 0 where
  pub next : String → List Neighbor
  pub max_depth : ℕ
  pub predicate : Entity → List String → List Edge → Bool

abbrev pub hit_of : QueueItem → Neighbor → PathHit
hit_of current n = record {
  entity = n.entity;
  path = current.path ++ n.entity.id ∷ [];
  edges = current.edges ++ n.edge ∷ [];
}

abbrev pub item_of : QueueItem → Neighbor → QueueItem
item_of current n = record {
  id = n.entity.id;
  path = current.path ++ n.entity.id ∷ [];
  edges = current.edges ++ n.edge ∷ [];
}

module _ (options : Options) where
  open options use {next, max_depth, predicate}

  -- `if (predicate(…)) results.push(…)`
  unfoldable pub report : QueueItem → Neighbor → List PathHit → List PathHit
  report current n results =
      let hit = hit_of current n in
      if predicate n.entity hit.path hit.edges then results ++ hit ∷ [] else results

  -- The body of the inner loop for one neighbour.
  unfoldable pub offer : QueueItem → Search → Neighbor → Search
  unfolding report
  offer current s n =
      let depth = suc (length current.edges) in
      let prev = lookup n.entity.id s.best_depth in
      if includes current.path n.entity.id
      then s
      else if is_worth prev depth
      then record {
        results = report current n s.results;
        queue = s.queue ++ item_of current n ∷ [];
        best_depth = insert n.entity.id (lowest prev depth) s.best_depth;
      }
      else record s { results = report current n s.results }

  unfoldable pub scan : QueueItem → Search → List Neighbor → Search
  scan current s [] = s
  scan current s (n ∷ ns) = scan current (offer current s n) ns

  -- One round of the outer loop, the item shifted.
  unfoldable pub expand : QueueItem → Search → Search
  expand current s =
      if leb max_depth (length current.edges) then s else scan current s (next current.id)

  abbrev pub turn :
      (Search → Option (List PathHit)) → Search → List QueueItem → Option (List PathHit)
  turn continue s [] = some s.results
  turn continue s (current ∷ rest) = continue (expand current (record s { queue = rest }))

  unfoldable pub loop : ℕ → Search → Option (List PathHit)
  loop zero s = none
  loop (suc fuel) s = turn (loop fuel) s s.queue

  abbrev pub initial : String → Search
  initial from = record {
    results = [];
    queue = record { id = from; path = from ∷ []; edges = [] } ∷ [];
    best_depth = (from, 0) ∷ [];
  }

  unfoldable pub find_paths : ℕ → String → Option (List PathHit)
  unfolding loop
  find_paths fuel from = loop fuel (initial from)
