-- ===== src/Ingest/Ingestor.antt =====
-- `CanonicalEventIngestor.ingest` (src/events/canonical-ingestor.js). The projector and the graph's
-- `query` are the constructor's arguments, as in the source.
use finalbuilds.Prelude.{
  String, Bool, true, false, not, ◌&&◌, Option, none, some, List, [], ◌∷◌, ◌==◌, if◌then◌else◌,
}
use finalbuilds.Prelude.Exec.{Exec, Outcome, ok, err}
use finalbuilds.Model.Value.{Value, Document, get, prop, truthy, text?}
use finalbuilds.Contract.Validate.{validate_event, is_text}
use finalbuilds.Ingest.Store.{EventStore}
use finalbuilds.Ingest.Checkpoint.{Checkpoint, update_checkpoint}

-- The event store; `JSON.stringify`; a graph that statements are sent to, each of which may throw
-- with a message; a projector that may throw; the hash of a payload, by `JSON.stringify` and sha256;
-- the time of a checkpoint; whether there is a checkpoint store.
pub record Environment : Type 1 where
  pub store : EventStore
  pub stringify : Document → String
  pub GraphState : Type 0
  pub query : String → Exec GraphState String (Unit {0})
  pub projector : Document → Outcome String (List String)
  pub hash : Value → String
  pub now : String
  pub has_checkpoint : Bool

pub data Projection : Type 0 where
  projected : Projection
  projection_error : String → Projection

pub data Verdict : Type 0 where
  invalid_envelope : List String → Verdict
  payload_hash_mismatch event_id_conflict duplicate : Verdict
  ingested : Projection → Verdict

pub record IngestResult : Type 0 where
  pub event_id : Value
  pub verdict : Verdict

-- The result's field `accepted`, and its field `duplicate` where it has one.
abbrev pub is_accepted : Verdict → Bool
is_accepted duplicate = true
is_accepted (ingested p) = true
is_accepted v = false

abbrev pub is_duplicate : Verdict → Bool
is_duplicate duplicate = true
is_duplicate v = false

module _ (env : Environment) where
  open env use {store, stringify, GraphState, query, projector, hash, now, has_checkpoint}
  open store use {State, get_by_id, append_envelope}

  pub record World : Type 0 where
    pub events : State
    pub graph : GraphState
    pub checkpoint : Option Checkpoint

  -- Step 2: a hash that is given must be that of the payload. The second hash of the source is of
  -- the same text, since `stringify` with indent 0 is `stringify`.
  unfoldable pub hash_fails : Document → Bool
  hash_fails event =
      let given = prop "payload_sha256" (get "integrity" event) in
      truthy given
      && not (is_text given (hash (get "payload" event)))
      && not (is_text given (hash (get "payload" event)))

  -- Step 5: the statements run in order up to the first that throws.
  unfoldable pub run_statements : List String → GraphState → Projection × GraphState
  run_statements [] g = (projected, g)
  run_statements (stmt ∷ rest) g =
      let later = run_statements rest (query stmt g).1 in
      elim (query stmt g).0 [
        | ok _ ↦ later
        | err message ↦ (projection_error message, (query stmt g).1)
      ]

  unfoldable pub project : Document → GraphState → Projection × GraphState
  unfolding run_statements
  project event g = elim (projector event) [
    | ok statements ↦ run_statements statements g
    | err message ↦ (projection_error message, g)
  ]

  -- Steps 4 to 6, for an event whose id is new.
  unfoldable pub accept : Document → World → Projection × World
  unfolding project update_checkpoint
  accept event w =
      let (status, g) = project event w.graph in
      (
        status,
        record {
          events = append_envelope event w.events;
          graph = g;
          checkpoint =
              if has_checkpoint
              then update_checkpoint (get "event_id" event) (get "occurred_at" event) now
                  w.checkpoint
              else w.checkpoint;
        },
      )

  abbrev pub answer : Document → Verdict → IngestResult
  answer event verdict = record { event_id = get "event_id" event; verdict = verdict }

  -- Steps 3 to 6, the stored event of that id given.
  unfoldable pub settle : Document → Option Document → World → IngestResult × World
  unfolding accept
  settle event (some existing) w = (
    answer event (if stringify existing == stringify event then duplicate else event_id_conflict),
    w,
  )
  settle event none w = let (status, v) = accept event w in (answer event (ingested status), v)

  -- Step 3: the stored event of that id. A store that throws there makes `ingest` throw.
  unfoldable pub look_up : Document → String → World → Option IngestResult × World
  unfolding settle
  look_up event id w = elim (get_by_id id w.events) [
    | none ↦ (none, w)
    | some found ↦ let (r, v) = settle event found w in (some r, v)
  ]

  -- The id of a valid envelope is a text.
  abbrev pub look_up_value : Document → Option String → World → Option IngestResult × World
  look_up_value event none w = (none, w)
  look_up_value event (some id) w = look_up event id w

  abbrev pub after_validation : Document → List String → World → Option IngestResult × World
  after_validation event [] w =
      if hash_fails event
      then (some (answer event payload_hash_mismatch), w)
      else look_up_value event (text? (get "event_id" event)) w
  after_validation event (e ∷ errors) w = (some (answer event (invalid_envelope (e ∷ errors))), w)

  -- `ingest(event)`; the result `none` is a throw.
  unfoldable pub ingest : Document → World → Option IngestResult × World
  ingest event w = elim (validate_event event) [
    | none ↦ (none, w)
    | some errors ↦ after_validation event errors w
  ]
