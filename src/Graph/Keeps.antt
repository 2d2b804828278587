-- ===== src/Graph/Keeps.antt =====
-- The graph writes of src/graph/inmemory.js keep the four maps linked.
use finalbuilds.Prelude.{String}
use finalbuilds.Model.Value.{Value, Document}
use finalbuilds.Graph.InMemory.{Graph, EntityInput, upsert_entity, link}
use finalbuilds.Graph.Index.{IsPlain, IsLinked}
use finalbuilds.Graph.Links.{PlainInput, upsert_entity-IsLinked, link-IsLinked}

-- In a linked graph `link` with a plain kind, whether it writes its edge and both index entries or
-- throws for an endpoint that is missing, leaves a linked graph.
pub link_keeps :
    (from : Value) (kind : String) (to : Value) (props : Document) (g : Graph)
    → IsPlain kind
    → IsLinked g
    → IsLinked (link from kind to props g).1
link_keeps from kind to props g plain l = (link-IsLinked from kind to props plain).keep g l

-- In a linked graph `upsertEntity` of a plain id, or of none, leaves a linked graph.
pub upsert_entity_keeps :
    (input : EntityInput) (g : Graph)
    → PlainInput input
    → IsLinked g
    → IsLinked (upsert_entity input g).1
upsert_entity_keeps input g plain l = (upsert_entity-IsLinked input plain).keep g l
