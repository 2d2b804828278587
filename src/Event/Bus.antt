-- ===== src/Event/Bus.antt =====
-- `EventBus` (src/event/bus.js): an emission appends to the log, projects the event, and runs the
-- handlers of its type. A handler acts on a state of its own (`outer`), such as a dispatcher's.
pub mod Replay
use finalbuilds.Prelude.{String, Bool, List, [], ◌∷◌, ◌++◌, Option, none, some}
use finalbuilds.Prelude.Dict.{Dict, lookup, insert}
use finalbuilds.Prelude.Exec.{Exec, Outcome, ok, err, pure, ◌>>=◌, ◌>>◌, for_each}
use finalbuilds.Model.Value.{Document}
use finalbuilds.Graph.InMemory.{Graph, GraphError, Action}
use finalbuilds.Event.Log.{Event, Stamp, append}
use finalbuilds.Event.Projector.{project_event}

pub record World (D : Type 0) : Type 0 where
  pub log : List Event
  pub graph : Graph
  pub outer : D

pub data BusError (E : Type 0) : Type 0 where
  projection_failed : GraphError → BusError E
  handler_failed : E → BusError E

pub record Emission : Type 0 where
  pub stamp : Stamp
  pub type : String
  pub payload : Document
  pub meta : Document

abbrev pub Handler : Type 0 → Type 0 → Type 0
Handler D E = Document → Exec D E (Unit {0})

abbrev pub Handlers : Type 0 → Type 0 → Type 0
Handlers D E = Dict (List (Handler D E))

abbrev pub projection_result :
    {E : Type 0} → Outcome GraphError (Unit {0}) → Outcome (BusError E) (Unit {0})
projection_result (ok a) = ok a
projection_result (err e) = err (projection_failed e)

abbrev pub handler_result : {E : Type 0} → Outcome E (Unit {0}) → Outcome (BusError E) (Unit {0})
handler_result (ok a) = ok a
handler_result (err e) = err (handler_failed e)

module _ {D E : Type 0} where
  abbrev pub handlers_of : String → Handlers D E → List (Handler D E)
  handlers_of type handlers = elim (lookup type handlers) [ none ↦ [] | some hs ↦ hs ]

  -- `on(type, handler)`
  unfoldable pub subscribe : String → Handler D E → Handlers D E → Handlers D E
  subscribe type handler handlers = insert type (handlers_of type handlers ++ handler ∷ []) handlers

  -- The constructor's subscription of a dispatcher: what it throws is caught.
  unfoldable pub caught : Handler D E → Handler D E
  caught dispatch task d = (ok tt, (dispatch task d).1)

  unfoldable pub bus_handlers : Option (Handler D E) → Handlers D E
  unfolding subscribe caught
  bus_handlers none = []
  bus_handlers (some dispatch) = subscribe "task.created" (caught dispatch) []

  unfoldable pub append_event : Emission → Exec (World D) (BusError E) Event
  append_event m w =
      let (log, event) = append m.stamp m.type m.payload m.meta w.log in
      (ok event, record w { log = log })

  unfoldable pub project : Event → Exec (World D) (BusError E) (Unit {0})
  project event w =
      let (r, g) = project_event event w.graph in (projection_result r, record w { graph = g })

  unfoldable pub run_handler : Document → Handler D E → Exec (World D) (BusError E) (Unit {0})
  run_handler payload handler w =
      let (r, d) = handler payload w.outer in (handler_result r, record w { outer = d })

  -- `emit(type, payload, meta)`
  unfoldable pub emit : Handlers D E → Emission → Exec (World D) (BusError E) Event
  emit handlers m = do
    event ← append_event m
    project event
    for_each (run_handler event.payload) (handlers_of m.type handlers)
    pure event
