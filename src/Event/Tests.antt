-- ===== src/Event/Tests.antt =====
-- A short history of the bus, and the theorems on the bus and the projector at it.
use mathlib.Core.Option.{some-injective}
use finalbuilds.Prelude.{ℕ, ◌+◌, String, ◌≡◌, refl, sym, ◌∙◌, subst, some, [], ◌∷◌, ◌++◌, length}
use finalbuilds.Prelude.Exec.{Outcome, ok, err, when, ◌>>=◌, ◌>>◌, for_each}
use finalbuilds.Model.Value.{Document, str}
use finalbuilds.Graph.InMemory.{
  Graph, link_endpoints_must_exist, empty, upsert_entity, merged, link, present,
}
use finalbuilds.Graph.Index.{IsPlain, IsLinked}
use finalbuilds.Graph.Links.{empty-IsLinked}
use finalbuilds.Event.Log.{Event, Stamp, event_of}
use finalbuilds.Event.Projector.{
  put, join, join_if, on_idea, cases, project_event, rebuild_projection,
}
use finalbuilds.Event.Projector.Handlers.{PlainEvent, IsPlain-of_lacks}
use finalbuilds.Event.Projector.Linked.{project_event_keeps, rebuild_projection-IsLinked}
use finalbuilds.Event.Bus.{
  World, BusError, projection_failed, Emission, Handler, Handlers, bus_handlers, subscribe, caught,
  append_event, project, run_handler, emit,
}
use finalbuilds.Event.Bus.Replay.{
  History, start, then_emit, rebuild_projection_replays, emit_failed_poisons,
}

abbrev stamp : Stamp
stamp = record { event_id = "evt_1"; time = "2026-01-01T00:00:00.000Z" }

-- An idea without a generator, and one whose generator is not in the graph.
abbrev idea : Document
idea = ("id", str "i") ∷ ("name", str "an idea") ∷ []

abbrev orphan : Document
orphan = ("id", str "o") ∷ ("name", str "an orphan") ∷ ("generator_id", str "g") ∷ []

abbrev seed : Document → Emission
seed payload = record { stamp = stamp; type = "idea.created"; payload = payload; meta = [] }

abbrev event : Document → Event
event payload = event_of stamp "idea.created" payload []

plain_idea : PlainEvent (event idea)
plain_idea id e = subst IsPlain (some-injective _ _ e) (IsPlain-of_lacks "i" refl)

-- A dispatcher that counts its calls and then throws.
abbrev counting : Handler ℕ String
counting payload n = (err "no transport", n + 1)

handlers : Handlers ℕ String
handlers = bus_handlers (some counting)

abbrev start_world : World ℕ
start_world = record { log = []; graph = empty; outer = 0 }

abbrev world : World ℕ
world = (emit handlers (seed idea) start_world).1

emitted : (emit handlers (seed idea) start_world).0 ≡ ok (event idea)
unfolding emit append_event project run_handler handlers bus_handlers subscribe caught project_event
    cases on_idea put join_if join when for_each ◌>>=◌ ◌>>◌ upsert_entity merged link
emitted = refl

history : History handlers world
history =
    then_emit (start 0) (seed idea)
      (λ x e. absurd (ok_ne_err (event idea) (projection_failed x) (sym emitted ∙ e)))
  where
    ok_ne_err :
        (a : Event) (x : BusError String)
        → ◌≡◌ {A = Outcome (BusError String) Event} (ok a) (err x)
        → ⊥
    ok_ne_err a x e = cc

failed : project_event (event orphan) world.graph ≡ (
  err (link_endpoints_must_exist (str "g") (str "o")),
  (project_event (event orphan) world.graph).1,
)
unfolding emit append_event project run_handler handlers bus_handlers subscribe caught project_event
    cases on_idea put join_if join when for_each ◌>>=◌ ◌>>◌ upsert_entity merged link present
failed = refl

rebuild_projection_replays_example :
    rebuild_projection world.log empty ≡ (ok (length world.log), world.graph)
rebuild_projection_replays_example = rebuild_projection_replays handlers world empty history

emit_failed_poisons_example :
    let (r, v) = emit handlers (seed orphan) world in
    (r ≡ err (projection_failed (link_endpoints_must_exist (str "g") (str "o"))))
    × ((rebuild_projection (v.log ++ (event idea ∷ [])) empty).0
        ≡ err (link_endpoints_must_exist (str "g") (str "o")))
emit_failed_poisons_example =
    emit_failed_poisons handlers world (seed orphan) (link_endpoints_must_exist (str "g") (str "o"))
      (project_event (event orphan) world.graph).1 (event idea ∷ []) empty history failed

project_event_keeps_example : IsLinked (project_event (event idea) empty).1
project_event_keeps_example = project_event_keeps (event idea) empty plain_idea empty-IsLinked

rebuild_projection-IsLinked_example : IsLinked (rebuild_projection (event idea ∷ []) world.graph).1
rebuild_projection-IsLinked_example =
    rebuild_projection-IsLinked (event idea ∷ []) world.graph (plain_idea, tt)

abbrev around : Graph
around = record {
  entities = ("a", record { id = "a"; type = "Idea"; name = str "A"; document = [] }) ∷ [];
  edges = ("k", record { from_id = "a"; kind = "LEADS_TO"; to_id = "a"; props = [] }) ∷ [];
  out_edges = [];
  in_edges = [];
}
