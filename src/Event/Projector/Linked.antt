-- ===== src/Event/Projector/Linked.antt =====
-- The graph that src/event/projector.js builds: its maps stay linked, and nothing is taken from it.
use finalbuilds.Prelude.{String, true, ◌≡◌, List, All}
use finalbuilds.Prelude.Dict.{contains}
use finalbuilds.Model.Value.{Value}
use finalbuilds.Graph.InMemory.{Graph, link}
use finalbuilds.Graph.Index.{IsLinked}
use finalbuilds.Graph.Links.{upsert_entity-IsLinked, link-IsLinked, empty-IsLinked}
use finalbuilds.Event.Log.{Event}
use finalbuilds.Event.Projector.{project_event, rebuild_projection}
use finalbuilds.Event.Projector.Handlers.{Kept, PlainEvent}
use finalbuilds.Event.Projector.Keep.{project_event-Preserves, rebuild_projection_from_empty}

IsLinked-kept : Kept IsLinked
IsLinked-kept = record { upsert = upsert_entity-IsLinked; link = link-IsLinked }

-- The projection of an event with a plain id leaves a linked graph linked, also where it throws half
-- way.
pub project_event_keeps :
    (e : Event) (g : Graph) → PlainEvent e → IsLinked g → IsLinked (project_event e g).1
project_event_keeps e g plain l = (project_event-Preserves IsLinked-kept e plain).keep g l

-- A rebuild from a log of plain ids ends in a linked graph, also where it throws half way, and
-- whatever graph it began with.
pub rebuild_projection-IsLinked :
    (events : List Event) (g : Graph)
    → All PlainEvent events
    → IsLinked (rebuild_projection events g).1
rebuild_projection-IsLinked events g plain =
    rebuild_projection_from_empty IsLinked-kept events g plain empty-IsLinked

-- The graph has the entity, and the edge under the key.
abbrev pub Has : String → String → Graph → Type 0
Has id key g = (contains id g.entities ≡ true) × (contains key g.edges ≡ true)
