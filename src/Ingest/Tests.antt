-- ===== src/Ingest/Tests.antt =====
-- Concrete events and stores for the ingestor, and its theorems at them.
use finalbuilds.Prelude.{
  String, true, false, ◌≡◌, ◌≢◌, refl, ap, sym, none, some, List, [], ◌∷◌, ◌++◌,
}
use finalbuilds.Prelude.Exec.{ok, err}
use finalbuilds.Model.Value.{Document, str, obj, end, field, get}
use finalbuilds.Model.Value.{prop}
use finalbuilds.Model.Template.{template}
use finalbuilds.Contract.Names.{contract_version}
use finalbuilds.Contract.Validate.{validate_event, is_system}
use finalbuilds.Ingest.Laws.{IsSound}
use finalbuilds.Ingest.Ingestor.{hash_fails}
use finalbuilds.Ingest.Store.{EventStore, IsJsonDocument}
use finalbuilds.Ingest.Jsonl.{find_event, find-append, find-append_other}
use finalbuilds.Ingest.Ingestor.{Environment, World, Verdict, answer, project, ingest}
use finalbuilds.Ingest.Batch.{ingest_batch}
use finalbuilds.Ingest.Batches.{ingest_batch_again}
use finalbuilds.Ingest.Keeps.{ingest_keeps, ingest_again, ingest_refused}
use mathlib.Core.Option.{some-injective}
use mathlib.Core.Bool.{false≢true}
use finalbuilds.Prelude.{◌==◌, eq_iff, ◌∙◌}
use finalbuilds.Ingest.Checkpoint.{update_checkpoint}
use finalbuilds.Ingest.Ingestor.{Projection, IngestResult, look_up, settle, accept}
use finalbuilds.Ingest.Batch.{Report, ingest_each, report_of}
use finalbuilds.Ingest.Batches.{all_duplicates}

-- A store that keeps its events in memory.
abbrev list_store : EventStore
list_store = record {
  State = List Document;
  get_by_id = λ id events. some (find_event id events);
  append_envelope = λ event events. events ++ (event ∷ []);
  IsValid = λ events. Unit;
  get_by_id-total = λ id events valid. (find_event id events, refl);
  append-IsValid = λ id event events valid is_json names absent. tt;
  append-self = λ id event events valid is_json names absent.
      ap some (find-append id event events names (some-injective _ _ absent));
  append-other = λ id other event events valid is_json names differ.
      ap some (find-append_other id other event events names differ);
}

-- `JSON.stringify` enough to tell the events of these tests apart, a graph that is the list of its
-- statements, and a projector that throws.
abbrev environment : Environment
environment = record {
  store = list_store;
  stringify = λ event. template (prop "n" (get "payload" event));
  GraphState = List String;
  query = λ stmt g. (ok tt, g ++ (stmt ∷ []));
  projector = λ event. err "no projector";
  hash = λ v. "hash";
  now = "2026-01-02T00:00:00.000Z";
  has_checkpoint = true;
}

abbrev created : String → String → Document
created system n =
    ("event_id", str "evt_1")
    ∷ ("event_type", str "artifact.created")
    ∷ ("schema_version", str contract_version)
    ∷ ("occurred_at", str "2026-01-01T00:00:00.000Z")
    ∷ ("recorded_at", str "2026-01-01T00:00:00.000Z")
    ∷ ("source", obj (field "system" (str system) end))
    ∷ ("subject", obj (field "type" (str "artifact") (field "id" (str "a") end)))
    ∷ ("payload", obj (field "n" (str n) end))
    ∷ []

abbrev event : Document
event = created "buildA-v2" "1"

abbrev changed : Document
changed = created "buildA-v2" "2"

abbrev start : World environment
start = record { events = []; graph = []; checkpoint = none }

event-IsSound : IsSound environment event "evt_1"
unfolding validate_event is_system template hash_fails
event-IsSound = record { validates = refl; hash_holds = refl; names = refl }

abbrev stored : World environment
stored = (ingest environment event start).1

changed-IsSound : IsSound environment changed "evt_1"
unfolding validate_event is_system template hash_fails
changed-IsSound = record { validates = refl; hash_holds = refl; names = refl }

abbrev unregistered : Document
unregistered = created "foundry-supervisor" "1"

abbrev refusal : IngestResult
refusal = answer environment [] (
    Verdict.invalid_envelope (
      "missing event_id" ∷ "invalid event_type: undefined"
      ∷ "schema_version mismatch: undefined != 1.0.0" ∷ "missing occurred_at"
      ∷ "missing recorded_at" ∷ "invalid source.system: undefined"
      ∷ "missing subject.type or subject.id" ∷ "missing payload" ∷ []))

refused : (ingest environment [] start).0 ≡ some refusal
unfolding ingest validate_event template
refused = refl

apart : (s t : String) → (s == t) ≡ false → s ≢ t
apart s t e same = false≢true (sym e ∙ (eq_iff s t).1 same)

event_json : IsJsonDocument event
event_json = (
  tt,
  refl,
  (
    tt,
    refl,
    (
      tt,
      refl,
      (
        tt,
        refl,
        (
          tt,
          refl,
          ((tt, refl, tt), refl, ((tt, refl, (tt, refl, tt)), refl, ((tt, refl, tt), refl, tt))),
        ),
      ),
    ),
  ),
)

changed_json : IsJsonDocument changed
changed_json = (
  tt,
  refl,
  (
    tt,
    refl,
    (
      tt,
      refl,
      (
        tt,
        refl,
        (
          tt,
          refl,
          ((tt, refl, tt), refl, ((tt, refl, (tt, refl, tt)), refl, ((tt, refl, tt), refl, tt))),
        ),
      ),
    ),
  ),
)

abbrev result : IngestResult
result = answer environment event (Verdict.ingested (Projection.projection_error "no projector"))

first_call : (ingest environment event start).0 ≡ some result
unfolding ingest look_up settle accept project validate_event is_system template hash_fails
    find_event
first_call = refl

found_after : environment.store.get_by_id "evt_1" stored.events ≡ some (some event)
unfolding ingest look_up settle accept project validate_event is_system template hash_fails
    find_event update_checkpoint
found_after = refl

ingest_again_example :
    ingest environment event stored ≡ (some (answer environment event Verdict.duplicate), stored)
ingest_again_example = ingest_again environment event start result tt event_json first_call refl

ingest_keeps_example :
    environment.store.get_by_id "evt_1" (ingest environment changed stored).1.events
    ≡ some (some event)
ingest_keeps_example =
    ingest_keeps environment changed stored "evt_1" event tt changed_json found_after

ingest_refused_example : (ingest environment [] start).1 ≡ start
ingest_refused_example = ingest_refused environment [] start refusal refused refl

abbrev batch : List Document
batch = event ∷ event ∷ []

abbrev report : Report
report = record { accepted = str "evt_1" ∷ []; duplicate = str "evt_1" ∷ []; rejected = [] }

batch_call : (ingest_batch environment batch start).0 ≡ some report
unfolding ingest_batch ingest_each report_of ingest look_up settle accept project validate_event
    is_system template hash_fails find_event update_checkpoint
batch_call = refl

ingest_batch_again_example :
    ingest_batch environment batch (ingest_batch environment batch start).1
    ≡ (some (all_duplicates batch), (ingest_batch environment batch start).1)
ingest_batch_again_example =
    ingest_batch_again environment batch start report tt (event_json, (event_json, tt)) batch_call
      refl
