-- ===== src/Standards/Tests.antt =====
-- A site with one standard, observed and not.
use finalbuilds.Prelude.{String, true, false, [], ◌∷◌, ◌≡◌, refl, ◌↔◌, some}
use finalbuilds.Prelude.Int.{pos}
use finalbuilds.Prelude.Dict.{Dict, lookup}
use finalbuilds.Model.Value.{Value, str, num, obj, arr, null, fields, items}
use finalbuilds.Graph.InMemory.{
  Graph, Entity, Neighbor, empty, upsert_entity, merged, link, connect, edge_key, add_index,
  present,
}
use finalbuilds.Prelude.Exec.{when, ◌>>=◌, ◌>>◌}
use finalbuilds.Event.Log.{Stamp}
use finalbuilds.Event.Projector.{project_event, cases, on_observation, put, join, join_if}
use finalbuilds.Controller.Plane.{emission_of}
use finalbuilds.Standards.Recorded.{observation_id, recorded_event}
use finalbuilds.Reconcile.Drift.{is_compliance, key_of, pair_key, tally, drift_of_site}
use finalbuilds.Standards.Conformance.{
  Latest, Result, evaluate, observation_of, load_latest, latest_of,
}
use finalbuilds.Standards.Verdict.{recorded_drift}

abbrev requirement : String → String → Value
requirement id severity = obj (fields (("id", str id) ∷ ("severity", str severity) ∷ []))

abbrev version : Entity
version = record {
  id = "stdv_1";
  type = "StandardVersion";
  name = null;
  document =
      (
        "requirements",
        arr (
            items
              (requirement "llms-txt" "required" ∷ requirement "http-health" "recommended" ∷ [])),
      )
      ∷ [];
}

abbrev site : Entity
site = record { id = "site_1"; type = "Site"; name = null; document = [] }

abbrev observed : Entity
observed = record {
  id = "obs_1";
  type = "Observation";
  name = null;
  document =
      ("subject_id", str "site_1")
      ∷ ("metric", str "llms_txt.present")
      ∷ ("value", num (pos 1))
      ∷ [];
}

abbrev latest : Latest
latest = load_latest (observed ∷ []) []

complies_test : (evaluate site (latest_of latest "site_1") version).compliant ≡ true
unfolding evaluate load_latest
complies_test = refl

unseen_test : (evaluate site (latest_of [] "site_1") version).compliant ≡ false
unfolding evaluate
unseen_test = refl

abbrev desired : Neighbor
desired = record {
  edge = record { from_id = "site_1"; kind = "CONFORMS_TO"; to_id = "stdv_1"; props = [] };
  entity = version;
}

abbrev verdict : Result
verdict = evaluate site (latest_of latest "site_1") version

abbrev stamp : Stamp
stamp = record { event_id = "evt_1"; time = "2026-01-02" }

abbrev sensor : Entity
sensor = record { id = "sensor_conformance"; type = "Sensor"; name = str "c"; document = [] }

abbrev start : Graph
start = record empty { entities = ("sensor_conformance", sensor) ∷ ("site_1", site) ∷ [] }

-- The graph with the site and the sensor, after the verdict is recorded.
abbrev observed_graph : Graph
observed_graph = (project_event (recorded_event (λ s. s) "2026-01-01" stamp [] verdict) start).1

abbrev recorded : Entity
recorded = record {
  id = "obs_conf_site_1_stdv_1";
  type = "Observation";
  name = str "standard.compliance";
  document =
      ("id", str "obs_conf_site_1_stdv_1")
      ∷ ("sensor_id", str "sensor_conformance")
      ∷ ("subject_id", str "site_1")
      ∷ ("metric", str "standard.compliance")
      ∷ ("value", num (pos 1))
      ∷ ("unit", null)
      ∷ (
        "dimensions",
        obj (fields (("failed_required", str "") ∷ ("failed_recommended", str "http-health") ∷ [])),
      )
      ∷ ("experiment_id", null)
      ∷ ("standard_version_id", str "stdv_1")
      ∷ ("observed_at", str "2026-01-01")
      ∷ ("ingested_at", str "2026-01-02")
      ∷ [];
}

stored : lookup (observation_id verdict) observed_graph.entities ≡ some recorded
unfolding project_event cases on_observation put join_if join when ◌>>=◌ ◌>>◌ upsert_entity merged
    link connect edge_key add_index present emission_of observation_of evaluate load_latest
stored = refl

-- The map that the reconciler makes of the observations of that graph.
abbrev compliance : Dict Entity
compliance = tally (recorded ∷ []) []

found : lookup (pair_key "site_1" "stdv_1") compliance ≡ some recorded
unfolding tally pair_key key_of
found = refl

recorded_drift_example :
    (is_compliance recorded ≡ true)
    × (key_of recorded ≡ pair_key "site_1" "stdv_1")
    × ((drift_of_site compliance site (desired ∷ []) ≡ []) ↔ (verdict.compliant ≡ true))
recorded_drift_example =
    recorded_drift (λ s. s) "2026-01-01" stamp [] start site desired (latest_of latest "site_1")
      recorded compliance stored found
