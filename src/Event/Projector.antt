-- ===== src/Event/Projector.antt =====
-- `projectEvent` and `rebuildProjection` (src/event/projector.js): the graph writes of each event
-- type. A `case` is a row of `cases`; the `switch` takes the first row of the type.
pub mod Handlers
pub mod Keep
pub mod Linked
use finalbuilds.Prelude.{
  ℕ, String, Bool, true, false, ◌&&◌, Option, none, some, List, [], ◌∷◌, map, length, ◌==◌,
  if◌then◌else◌,
}
use finalbuilds.Prelude.Text.{◌<+>◌}
use finalbuilds.Prelude.Dict.{insert}
use finalbuilds.Prelude.Exec.{ok, pure, ◌>>=◌, ◌>>◌, when, for_each}
use finalbuilds.Model.Value.{
  Value, Document, str, bool, arr, obj, get, prop, truthy, or_nullish, array, items, fields,
  defined,
}
use finalbuilds.Model.Template.{template}
use finalbuilds.Model.EntityType
use finalbuilds.Model.RelKind
use finalbuilds.Graph.InMemory.{Graph, Action, upsert_entity, link, clear, present}
use finalbuilds.Event.Log.{Event}

-- `slim(obj, keys)`
abbrev pub slim : Document → List String → Document
slim d [] = []
slim d (k ∷ ks) = if defined (get k d) then (k, get k d) ∷ slim d ks else slim d ks

unfoldable pub put : Value → String → Value → Document → Action (Unit {0})
unfolding ◌>>◌
put id type name document =
    upsert_entity (record { id = id; type = type; name = some name; document = document })
    >> pure tt

unfoldable pub join : Value → String → Value → Document → Action (Unit {0})
unfolding ◌>>◌
join from kind to props = link from kind to props >> pure tt

-- `if (id) await graph.link(from, kind, to, { at })`
unfoldable pub join_if : Value → Value → String → Value → String → Action (Unit {0})
unfolding join when
join_if id from kind to time = when (truthy id) (join from kind to (("at", str time) ∷ []))

-- `await graph.getEntity(v)`, as a test.
abbrev exists : Graph → Value → Bool
exists g v = elim (present g v) [ none ↦ false | some _ ↦ true ]

-- `if (v && await graph.getEntity(v)) await graph.link(from, kind, to, { at })`
unfoldable pub join_known : Value → Value → String → Value → String → Action (Unit {0})
unfolding join when
join_known v from kind to time g =
    when (truthy v && exists g v) (join from kind to (("at", str time) ∷ [])) g

-- `if (await graph.getEntity(v)) await graph.link(from, kind, to, { at })`
unfoldable pub join_present : Value → Value → String → Value → String → Action (Unit {0})
unfolding join when
join_present v from kind to time g = when (exists g v) (join from kind to (("at", str time) ∷ [])) g

-- `{ ...p, [key]: event.at }`
abbrev pub stamped : String → Event → Document
stamped key e = insert key (str e.time) e.payload

-- `p.k`
abbrev pub field : String → Event → Value
field k e = get k e.payload

unfoldable pub on_generator_registered : Event → Action (Unit {0})
on_generator_registered e =
    put (field "id" e) EntityType.idea_generator (field "name" e) (stamped "registered_at" e)

unfoldable pub on_idea : Event → Action (Unit {0})
on_idea e = do
  put (field "id" e) EntityType.idea (field "name" e) (stamped "seeded_at" e)
  join_if (field "generator_id" e) (field "generator_id" e) RelKind.generated (field "id" e) e.time

unfoldable pub on_research : Event → Action (Unit {0})
on_research e = do
  put (field "id" e) EntityType.research_report (field "title" e) (stamped "recorded_at" e)
  join_if (field "idea_id" e) (field "idea_id" e) RelKind.researched_by (field "id" e) e.time
  join_if (field "supports_standard_version_id" e) (field "id" e) RelKind.supports
      (field "supports_standard_version_id" e) e.time

unfoldable pub on_capability : Event → Action (Unit {0})
on_capability e = do
  put (field "id" e) EntityType.capability (field "name" e) (stamped "defined_at" e)
  join_if (field "idea_id" e) (field "idea_id" e) RelKind.proposes (field "id" e) e.time

abbrev build_keys : List String
build_keys =
    "id" ∷ "name" ∷ "idea_id" ∷ "status" ∷ "build_run_id" ∷ "process_id" ∷ "rejected_reason" ∷ []

-- `p.status ?? (completed ? 'completed' : 'running')`
unfoldable pub build_status : Event → Value
build_status e =
    or_nullish (field "status" e)
      (str (if e.type == "build.completed" then "completed" else "running"))

-- `{ ...slim(p, …), status, [`${status}_at`]: event.at }`
unfoldable pub build_document : Event → Document
unfolding template build_status
build_document e =
    insert (template (build_status e) <+> "_at") (str e.time)
      (insert "status" (build_status e) (slim e.payload build_keys))

unfoldable pub on_build : Event → Action (Unit {0})
on_build e = do
  put (field "id" e) EntityType.build_run (or_nullish (field "name" e) (field "id" e))
      (build_document e)
  join_if (field "idea_id" e) (field "idea_id" e) RelKind.built_by (field "id" e) e.time

unfoldable pub on_product : Event → Action (Unit {0})
on_product e = do
  put (field "id" e) EntityType.product (field "name" e) (stamped "graduated_at" e)
  join_if (field "build_run_id" e) (field "build_run_id" e) RelKind.produced (field "id" e) e.time
  for_each (λ c. join (field "id" e) RelKind.implements c (("at", str e.time) ∷ []))
      (array (field "capability_ids" e))

abbrev site_keys : List String
site_keys =
    "id" ∷ "name" ∷ "domain" ∷ "runtime" ∷ "cloudflare_worker" ∷ "product_id"
    ∷ "telemetry_exemptions" ∷ []

unfoldable pub on_site : Event → Action (Unit {0})
on_site e = do
  put (field "id" e) EntityType.site (field "name" e) (slim e.payload site_keys)
  join_if (field "product_id" e) (field "product_id" e) RelKind.exposes (field "id" e) e.time

unfoldable pub on_deployment : Event → Action (Unit {0})
on_deployment e = do
  put (field "id" e) EntityType.deployment (or_nullish (field "name" e) (field "id" e))
      (stamped "deployed_at" e)
  join_if (field "site_id" e) (field "site_id" e) RelKind.deployed_as (field "id" e) e.time

unfoldable pub on_standard : Event → Action (Unit {0})
on_standard e = put (field "id" e) EntityType.standard (field "name" e) (stamped "registered_at" e)

-- `(p.requirements ?? []).map(r => ({ id: r.id, severity: r.severity }))`
unfoldable pub slim_requirements : Value → Value
slim_requirements v = arr (
    items (
      map (λ r. obj (fields (("id", prop "id" r) ∷ ("severity", prop "severity" r) ∷ [])))
        (array v)))

abbrev version_keys : List String
version_keys = "id" ∷ "standard_id" ∷ "standard_name" ∷ "version" ∷ "status" ∷ "previous_id" ∷ []

unfoldable pub version_document : Event → Document
unfolding slim_requirements
version_document e = insert "registered_at" (str e.time) (
    insert "requirements" (slim_requirements (field "requirements" e))
      (slim e.payload version_keys))

unfoldable pub version_name : Event → Value
unfolding template
version_name e = str (
    template (or_nullish (field "standard_name" e) (field "standard_id" e))
    <+> ("@" <+> template (field "version" e)))

unfoldable pub on_standard_version : Event → Action (Unit {0})
on_standard_version e = do
  put (field "id" e) EntityType.standard_version (version_name e) (version_document e)
  join_known (field "previous_id" e) (field "id" e) RelKind.supersedes (field "previous_id" e)
      e.time
  join_known (field "standard_id" e) (field "standard_id" e) RelKind.exposes (field "id" e) e.time

unfoldable pub on_standard_desired : Event → Action (Unit {0})
on_standard_desired e =
    join (field "site_id" e) RelKind.conforms_to (field "standard_version_id" e) (
      ("desired", bool true)
      ∷ ("at", str e.time)
      ∷ ("source", or_nullish (field "source" e) (str "registry"))
      ∷ [])

unfoldable pub on_sensor : Event → Action (Unit {0})
on_sensor e = put (field "id" e) EntityType.sensor (field "name" e) (stamped "registered_at" e)

unfoldable pub on_observation : Event → Action (Unit {0})
on_observation e = do
  put (field "id" e) EntityType.observation (field "metric" e) (stamped "ingested_at" e)
  join_if (field "sensor_id" e) (field "sensor_id" e) RelKind.observed (field "id" e) e.time
  join_if (field "subject_id" e) (field "subject_id" e) RelKind.observed_by (field "id" e) e.time
  join_if (field "experiment_id" e) (field "experiment_id" e) RelKind.measures (field "id" e) e.time

unfoldable pub on_experiment : Event → Action (Unit {0})
on_experiment e = do
  put (field "id" e) EntityType.experiment (field "name" e) (stamped "created_at" e)
  join_if (field "standard_version_id" e) (field "id" e) RelKind.tests
      (field "standard_version_id" e) e.time

unfoldable pub on_arm : Event → Action (Unit {0})
on_arm e = do
  put (field "id" e) EntityType.experiment_arm (field "name" e) (stamped "created_at" e)
  join_if (field "experiment_id" e) (field "experiment_id" e) RelKind.has_arm (field "id" e) e.time

unfoldable pub on_arm_assigned : Event → Action (Unit {0})
on_arm_assigned e =
    join (field "arm_id" e) RelKind.assigned_to (field "site_id" e)
      (("at", str e.time) ∷ ("bucket", field "bucket" e) ∷ [])

unfoldable pub on_failure : Event → Action (Unit {0})
on_failure e = do
  put (field "id" e) EntityType.failure
      (or_nullish (field "name" e) (or_nullish (field "code" e) (field "id" e)))
      (stamped "recorded_at" e)
  join_if (field "subject_id" e) (field "subject_id" e) RelKind.failed_with (field "id" e) e.time

abbrev task_keys : List String
task_keys = "id" ∷ "title" ∷ "subject_id" ∷ "kind" ∷ "risk_class" ∷ "status" ∷ "build_run_id" ∷ []

unfoldable pub on_task : Event → Action (Unit {0})
on_task e = do
  put (field "id" e) EntityType.task (field "title" e)
      (insert "created_at" (str e.time) (slim e.payload task_keys))
  join_if (field "subject_id" e) (field "subject_id" e) RelKind.triggered (field "id" e) e.time

unfoldable pub on_process : Event → Action (Unit {0})
on_process e = put (field "id" e) EntityType.process (field "name" e) (stamped "registered_at" e)

abbrev run_status : Event → String
run_status e = if e.type == "process.run.completed" then "completed" else "running"

unfoldable pub on_process_run : Event → Action (Unit {0})
on_process_run e = do
  put (field "id" e) EntityType.process_run (or_nullish (field "name" e) (field "id" e)) (
      insert (run_status e <+> "_at") (str e.time) (insert "status" (str (run_status e)) e.payload))
  join_if (field "process_id" e) (field "process_id" e) RelKind.executed (field "id" e) e.time
  for_each (λ i. join_present i i RelKind.input_to (field "id" e) e.time)
      (array (field "input_ids" e))
  for_each (λ o. join_present o (field "id" e) RelKind.output_of o e.time)
      (array (field "output_ids" e))

abbrev pub Case : Type 0
Case = String × (Event → Action (Unit {0}))

unfoldable pub cases : List Case
cases =
    ("idea.generator.registered", on_generator_registered)
    ∷ ("idea.created", on_idea)
    ∷ ("idea.seeded", on_idea)
    ∷ ("research.recorded", on_research)
    ∷ ("capability.defined", on_capability)
    ∷ ("build.started", on_build)
    ∷ ("build.completed", on_build)
    ∷ ("product.graduated", on_product)
    ∷ ("site.registered", on_site)
    ∷ ("deployment.recorded", on_deployment)
    ∷ ("standard.registered", on_standard)
    ∷ ("standard.version.registered", on_standard_version)
    ∷ ("site.standard.desired", on_standard_desired)
    ∷ ("sensor.registered", on_sensor)
    ∷ ("observation.recorded", on_observation)
    ∷ ("experiment.created", on_experiment)
    ∷ ("experiment.arm.created", on_arm)
    ∷ ("experiment.arm.assigned", on_arm_assigned)
    ∷ ("failure.recorded", on_failure)
    ∷ ("task.created", on_task)
    ∷ ("process.registered", on_process)
    ∷ ("process.run.started", on_process_run)
    ∷ ("process.run.completed", on_process_run)
    ∷ []

-- `switch (event.type) { … default: break; }`
abbrev pub switch : List Case → Event → Action (Unit {0})
switch [] e = pure tt
switch ((type, run) ∷ rest) e = if type == e.type then run e else switch rest e

unfoldable pub project_event : Event → Action (Unit {0})
project_event = switch cases

-- Clears the graph, projects every event of the log in order, and returns their number.
unfoldable pub rebuild_projection : List Event → Action ℕ
rebuild_projection events = do clear; for_each project_event events; pure (length events)
