-- ===== src/Controller/Plane.antt =====
-- The methods of the control plane (src/controller/control-plane.js), of StandardsCatalog
-- (src/standards/catalog.js) and `createRepairTasks` (src/reconcile/reconciler.js) that emit events: each by
-- the type and the payload that it emits.
use finalbuilds.Prelude.{
  ℕ, suc, String, Bool, true, false, ◌||◌, Option, none, some, List, [], ◌∷◌, ◌≡◌, refl, ◌==◌,
}
use finalbuilds.Prelude.Int.{pos}
use finalbuilds.Prelude.Text.{◌<+>◌}
use finalbuilds.Prelude.Dict.{merge}
use finalbuilds.Model.Value.{
  Value, Document, undefined, null, num, str, arr, obj, end, nil, get, or_nullish, fields,
}
use finalbuilds.Event.Projector.{Case, cases}
use finalbuilds.Reconcile.Drift.{Drift}

-- A default of a parameter.
abbrev or_default : Value → Value → Value
or_default undefined d = d
or_default v d = v

-- The keys of a parameter object, each with its default.
abbrev picked : Document → Document → Document
picked [] given = []
picked ((k, d) ∷ defaults) given = (k, or_default (get k given) d) ∷ picked defaults given

-- A call of a method, with its parameter object, or its parameters.
pub data Call : Type 0 where
  register_idea_generator : Document → Call
  seed_idea : Document → Call
  record_research : Document → Call
  define_capability : Document → Call
  complete_build : Document → Call
  graduate_product : Document → Call
  register_site : Document → Call
  record_deployment : Document → Call
  register_sensor : Document → Call
  observe : Document → Call
  register_process : Document → Call
  start_process_run : Document → Call
  complete_process_run : Document → Call
  record_failure : Document → Call
  register_standard : Document → Call
  register_version : Document → Call
  desire : Value → Value → Value → Call

-- The type and the payload that a call emits, with a random id and the time for those that use them.
unfoldable pub emission_of : (String → String) → String → Call → String × Document
emission_of random_id now (register_idea_generator d) = (
  "idea.generator.registered",
  picked
      (("id", undefined) ∷ ("name", undefined) ∷ ("method", undefined) ∷ ("version", str "1") ∷ [])
      d,
)
emission_of random_id now (seed_idea d) = ("idea.seeded", d)
emission_of random_id now (record_research d) = ("research.recorded", d)
emission_of random_id now (define_capability d) = ("capability.defined", d)
emission_of random_id now (complete_build d) = ("build.completed", d)
emission_of random_id now (graduate_product d) = ("product.graduated", d)
emission_of random_id now (register_site d) = ("site.registered", d)
emission_of random_id now (record_deployment d) = ("deployment.recorded", d)
emission_of random_id now (register_sensor d) = ("sensor.registered", d)
emission_of random_id now (observe d) = (
  "observation.recorded",
  picked
      (("id", str (random_id "obs"))
        ∷ ("sensor_id", undefined)
        ∷ ("subject_id", undefined)
        ∷ ("metric", undefined)
        ∷ ("value", undefined)
        ∷ ("unit", null)
        ∷ ("dimensions", obj end)
        ∷ ("experiment_id", null)
        ∷ ("standard_version_id", null)
        ∷ ("observed_at", str now)
        ∷ [])
      d,
)
emission_of random_id now (register_process d) = ("process.registered", d)
emission_of random_id now (start_process_run d) = ("process.run.started", d)
emission_of random_id now (complete_process_run d) = ("process.run.completed", d)
emission_of random_id now (record_failure d) =
    ("failure.recorded", merge (("id", or_nullish (get "id" d) (str (random_id "fail"))) ∷ []) d)
emission_of random_id now (register_standard d) = (
  "standard.registered",
  picked (("id", undefined) ∷ ("name", undefined) ∷ ("description", str "") ∷ []) d,
)
emission_of random_id now (register_version d) = (
  "standard.version.registered",
  picked
      (("id", undefined)
        ∷ ("standard_id", undefined)
        ∷ ("standard_name", undefined)
        ∷ ("version", undefined)
        ∷ ("status", str "experimental")
        ∷ ("requirements", arr nil)
        ∷ ("previous_id", null)
        ∷ ("evidence", arr nil)
        ∷ [])
      d,
)
emission_of random_id now (desire site version source) = (
  "site.standard.desired",
  ("site_id", site)
      ∷ ("standard_version_id", version)
      ∷ ("source", or_default source (str "registry"))
      ∷ [],
)

abbrev id_or_null : Option String → Value
id_or_null none = null
id_or_null (some id) = str id

-- An entry of the drift as the document that it is.
abbrev drift_document : Drift → Document
drift_document d =
    ("site_id", str d.site_id)
    ∷ ("site_name", d.site_name)
    ∷ ("standard_version_id", str d.standard_version_id)
    ∷ ("reason", str d.reason)
    ∷ ("observation_id", id_or_null d.observation_id)
    ∷ []

abbrev repair_task : String → Drift → Document
repair_task id d =
    ("id", str id)
    ∷ ("title", str ("Reconcile " <+> (d.site_id <+> (" to " <+> d.standard_version_id))))
    ∷ ("subject_id", str d.site_id)
    ∷ ("kind", str "standard-reconcile")
    ∷ ("payload", obj (fields (drift_document d)))
    ∷ ("risk_class", num (pos 1))
    ∷ ("status", str "ready")
    ∷ []

-- The tasks that `createRepairTasks(drift)` emits as `task.created` and returns, with the n-th random id.
unfoldable pub create_repair_tasks : (ℕ → String) → ℕ → List Drift → List Document
create_repair_tasks random_id n [] = []
create_repair_tasks random_id n (d ∷ drift) =
    repair_task (random_id n) d ∷ create_repair_tasks random_id (suc n) drift

-- `projectEvent` has a case of the type.
abbrev pub has_case : String → List Case → Bool
has_case type [] = false
has_case type ((t, run) ∷ rest) = t == type || has_case type rest

-- No call of the control plane or of the catalog emits a type that the projector has no case for.
pub calls_projected :
    (random_id : String → String) (now : String) (call : Call)
    → has_case (emission_of random_id now call).0 cases ≡ true
unfolding emission_of cases
calls_projected random_id now (register_idea_generator d) = refl
calls_projected random_id now (seed_idea d) = refl
calls_projected random_id now (record_research d) = refl
calls_projected random_id now (define_capability d) = refl
calls_projected random_id now (complete_build d) = refl
calls_projected random_id now (graduate_product d) = refl
calls_projected random_id now (register_site d) = refl
calls_projected random_id now (record_deployment d) = refl
calls_projected random_id now (register_sensor d) = refl
calls_projected random_id now (observe d) = refl
calls_projected random_id now (register_process d) = refl
calls_projected random_id now (start_process_run d) = refl
calls_projected random_id now (complete_process_run d) = refl
calls_projected random_id now (record_failure d) = refl
calls_projected random_id now (register_standard d) = refl
calls_projected random_id now (register_version d) = refl
calls_projected random_id now (desire site version source) = refl
