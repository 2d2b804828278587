-- ===== src/Event/Log.antt =====
-- `InMemoryEventStore` (src/event/jsonl-store.js): an array of events, each with an id and a time
-- from outside. `append` hands back a copy of what it stored.
use finalbuilds.Prelude.{String, List, [], ◌∷◌, ◌++◌}
use finalbuilds.Model.Value.{Document}

-- `time` is the source's `at`.
pub record Event : Type 0 where
  pub event_id : String
  pub type : String
  pub time : String
  pub payload : Document
  pub meta : Document

-- What `randomId` and the clock answer for one append.
pub record Stamp : Type 0 where
  pub event_id : String
  pub time : String

abbrev pub event_of : Stamp → String → Document → Document → Event
event_of stamp type payload meta = record {
  event_id = stamp.event_id;
  type = type;
  time = stamp.time;
  payload = payload;
  meta = meta;
}

-- The store after `append(type, payload, meta)`, and the event.
abbrev pub append : Stamp → String → Document → Document → List Event → List Event × Event
append stamp type payload meta events =
    let event = event_of stamp type payload meta in (events ++ event ∷ [], event)
