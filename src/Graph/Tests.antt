-- ===== src/Graph/Tests.antt =====
-- A small graph, and the theorems on the graph store and its search at it.
use mathlib.Core.Option.{some-injective}
use mathlib.Core.Bool.{false≢true}
use finalbuilds.Prelude.{
  ◌+◌, ◌≤◌, String, true, ◌≡◌, ◌↔◌, refl, subst, inl, In, All, none, some, List, [], ◌∷◌, length,
  arith, ◌==◌, eq_iff, if◌then◌else◌,
}
use finalbuilds.Prelude.Dict.{lookup}
use finalbuilds.Prelude.Exec.{ok}
use finalbuilds.Model.Value.{Value, str, null}
use finalbuilds.Graph.InMemory.{
  Graph, Entity, Edge, EntityInput, Neighbor, outgoing, incoming, empty, merged, upsert_entity,
  link, present, connect, edge_key, add_index, neighbors,
}
use finalbuilds.Graph.Index.{IsPlain, IsLinked}
use finalbuilds.Graph.Links.{PlainInput, empty-IsLinked}
use finalbuilds.Graph.Keeps.{link_keeps, upsert_entity_keeps}
use finalbuilds.Graph.Upsert.{document_of, or_else, last_of, upsert_entity_stores}
use finalbuilds.Graph.Neighbors.{Leaves, Enters, neighbors_outgoing, neighbors_incoming}
use finalbuilds.Graph.Paths.{Options, PathHit, find_paths, expand, scan, offer, report}
use finalbuilds.Graph.Paths.Fuel.{weight}
use finalbuilds.Graph.Paths.Walks.{IsHit, find_paths_sound}
use finalbuilds.Graph.Paths.Cover.{here, step}
use finalbuilds.Graph.Paths.Complete.{find_paths_complete}
use finalbuilds.Event.Projector.Handlers.{IsPlain-of_lacks}

abbrev input_a : EntityInput
input_a = record {
  id = str "a";
  type = "Idea";
  name = some (str "A");
  document = ("n", str "1") ∷ [];
}

abbrev input_b : EntityInput
input_b = record { id = str "b"; type = "Build"; name = some (str "B"); document = [] }

plain_a : PlainInput input_a
plain_a id e = subst IsPlain (some-injective _ _ e) (IsPlain-of_lacks "a" refl)

plain_b : PlainInput input_b
plain_b id e = subst IsPlain (some-injective _ _ e) (IsPlain-of_lacks "b" refl)

IsPlain-kind : IsPlain "LEADS_TO"
IsPlain-kind = IsPlain-of_lacks "LEADS_TO" refl

abbrev one : Graph
one = (upsert_entity input_a empty).1

abbrev two : Graph
two = (upsert_entity input_b one).1

abbrev linked : Graph
linked = (link (str "a") "LEADS_TO" (str "b") [] two).1

one-IsLinked : IsLinked one
one-IsLinked = upsert_entity_keeps input_a empty plain_a empty-IsLinked

two-IsLinked : IsLinked two
two-IsLinked = upsert_entity_keeps input_b one plain_b one-IsLinked

linked-IsLinked : IsLinked linked
linked-IsLinked = link_keeps (str "a") "LEADS_TO" (str "b") [] two IsPlain-kind two-IsLinked

link_keeps_example : IsLinked (link (str "a") "LEADS_TO" (str "b") [] two).1
link_keeps_example = link_keeps (str "a") "LEADS_TO" (str "b") [] two IsPlain-kind two-IsLinked

neighbors_outgoing_example :
    (hits : List Neighbor) × (neighbors "a" outgoing none linked ≡ some hits)
    × ((n : Neighbor) → In n hits ↔ Leaves linked none "a" n)
neighbors_outgoing_example = neighbors_outgoing linked "a" none linked-IsLinked

neighbors_incoming_example :
    (hits : List Neighbor) × (neighbors "b" incoming none linked ≡ some hits)
    × ((n : Neighbor) → In n hits ↔ Enters linked none "b" n)
neighbors_incoming_example = neighbors_incoming linked "b" none linked-IsLinked

-- The link that the graph was given is what both directions report.
abbrev the_edge : Edge
the_edge = record { from_id = "a"; kind = "LEADS_TO"; to_id = "b"; props = [] }

outgoing_test :
    neighbors "a" outgoing none linked
    ≡ some (
        record {
          edge = the_edge;
          entity = record { id = "b"; type = "Build"; name = str "B"; document = [] };
        }
        ∷ [])
unfolding neighbors link upsert_entity connect edge_key add_index merged present
outgoing_test = refl

-- An input without a name, for an entity that the graph has.
abbrev input_unnamed : EntityInput
input_unnamed = record { id = str "a"; type = "Idea"; name = none; document = ("m", str "2") ∷ [] }

keeps_name_test :
    (upsert_entity input_unnamed one).0
    ≡ ok (record {
      id = "a";
      type = "Idea";
      name = str "A";
      document = ("n", str "1") ∷ ("m", str "2") ∷ [];
    })
unfolding upsert_entity merged
keeps_name_test = refl

upsert_entity_stores_example :
    let (r, h) = upsert_entity input_unnamed two in
    (e : Entity) × (r ≡ ok e)
    × (e.type ≡ "Idea")
    × ((v : Value) → input_unnamed.name ≡ some v → e.name ≡ v)
    × ((d : Entity)
        → input_unnamed.name ≡ none
        → lookup "a" two.entities ≡ some d
        → e.name ≡ d.name)
    × ((j : String)
        → lookup j e.document
          ≡ or_else (last_of j input_unnamed.document) (lookup j (document_of "a" two)))
    × ((j : String) → lookup j h.entities ≡ (if "a" == j then some e else lookup j two.entities))
    × (h.edges ≡ two.edges)
upsert_entity_stores_example = upsert_entity_stores input_unnamed "a" refl refl two

-- A store of three entities in a row.
abbrev node : String → Entity
node id = record { id = id; type = "Idea"; name = null; document = [] }

abbrev hop : String → String → Neighbor
hop a b = record {
  edge = record { from_id = a; kind = "LEADS_TO"; to_id = b; props = [] };
  entity = node b;
}

abbrev row : String → List Neighbor
row at = if at == "a" then hop "a" "b" ∷ [] else if at == "b" then hop "b" "c" ∷ [] else []

abbrev options : Options
options = record { next = row; max_depth = 2; predicate = λ e path edges. true }

row_bounded : (at : String) → length (row at) ≤ 1
row_bounded at = ground arith

find_paths_complete_example :
    (results : List PathHit) × (find_paths options (weight 1 2 + 2) "a" ≡ some results)
    × ((hit : PathHit) × In hit results × (hit.entity.id ≡ "c"))
find_paths_complete_example =
    find_paths_complete options "a" (λ e path edges. refl) 1 2 "c" row_bounded
      (step (step here (hop "a" "b") (inl refl)) (hop "b" "c") (inl refl)) (ground arith)
      (λ e. false≢true ((eq_iff "c" "a").1 e))

abbrev hits : List PathHit
hits =
    record { entity = node "b"; path = "a" ∷ "b" ∷ []; edges = (hop "a" "b").edge ∷ [] }
    ∷ record {
      entity = node "c";
      path = "a" ∷ "b" ∷ "c" ∷ [];
      edges = (hop "a" "b").edge ∷ (hop "b" "c").edge ∷ [];
    }
    ∷ []

find_paths_test : find_paths options 5 "a" ≡ some hits
unfolding find_paths expand scan offer report
find_paths_test = refl

find_paths_sound_example : All (IsHit options "a") hits
find_paths_sound_example = find_paths_sound options "a" 5 hits find_paths_test
