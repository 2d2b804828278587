-- ===== src/Hydra/Projector.antt =====
-- `projectEvent` of src/graph/hydradb/projector.js: the statement of each event type. `none` is a
-- TypeError: of an id that is no text, or of a message that cannot be cut.
use finalbuilds.Prelude.{ℕ, String, Option, none, some, List, [], ◌∷◌, ◌==◌, take, if◌then◌else◌}
use finalbuilds.Prelude.Int.{pos}
use finalbuilds.Prelude.Text.{slice}
use finalbuilds.Model.Value.{
  Value, Document, undefined, null, bool, num, str, arr, get, prop, truthy, or_nullish, or_falsy,
  elements, items, text?,
}
use finalbuilds.Hydra.Cypher.{Outside, create_node, update_node}

-- `p.k`, of `event.payload ?? {}`.
abbrev of_payload : String → Document → Value
of_payload k e = prop k (get "payload" e)

-- `p.k || s`
abbrev text_or : String → String → Document → Value
text_or k s e = or_falsy (of_payload k e) (str s)

-- `p.k || 0`
abbrev number_or_zero : String → Document → Value
number_or_zero k e = or_falsy (of_payload k e) (num (pos 0))

-- `!!p.k`
abbrev flag : String → Document → Value
flag k e = bool (truthy (of_payload k e))

abbrev time_of : Document → Value
time_of e = get "occurred_at" e

-- `v.substring(0, n)`, and `v.slice(0, n)`, which arrays have too.
abbrev pub substring : ℕ → Value → Option Value
substring n (str s) = some (str (slice n s))
substring n v = none

abbrev pub slice_value : ℕ → Value → Option Value
slice_value n (str s) = some (str (slice n s))
slice_value n (arr xs) = some (arr (items (take n (elements xs))))
slice_value n v = none

-- `event.subject.id`; `none` is the TypeError of an event without a subject.
abbrev pub subject_id : Document → Option Value
subject_id e = elim (get "subject" e) [ undefined ↦ none | null ↦ none | v ↦ some (prop "id" v) ]

-- `v ?? event.subject.id`, and `v || event.subject.id`.
abbrev nullish_or_subject : Value → Document → Option Value
nullish_or_subject undefined e = subject_id e
nullish_or_subject null e = subject_id e
nullish_or_subject v e = some v

abbrev falsy_or_subject : Value → Document → Option Value
falsy_or_subject v e = if truthy v then some v else subject_id e

abbrev pub and_then : {A B : Type 0} → Option A → (A → Option B) → Option B
and_then none f = none
and_then (some a) f = f a

module _ (outside : Outside) where
  unfoldable pub build_started : Document → Option String
  build_started e =
      create_node outside "BuildRun" (or_nullish (of_payload "build_run_id" e) (of_payload "id" e))
        (("status", str "running") ∷ ("started_at", time_of e) ∷ [])

  unfoldable pub attempt_started : Document → Option String
  attempt_started e = create_node outside "BuildAttempt" (of_payload "attempt_id" e) (
      ("attempt_number", number_or_zero "attempt_number" e)
      ∷ ("build_run_id", text_or "build_run_id" "" e)
      ∷ ("status", str "running")
      ∷ ("started_at", time_of e)
      ∷ [])

  unfoldable pub task_completed : Document → Option String
  task_completed e = create_node outside "Task" (of_payload "task_id" e) (
      ("attempt_id", text_or "attempt_id" "" e)
      ∷ ("status", text_or "status" "unknown" e)
      ∷ ("duration_ms", number_or_zero "duration_ms" e)
      ∷ [])

  unfoldable pub failure_recorded : Document → Option String
  failure_recorded e = and_then (substring 200 (text_or "message" "" e)) (λ message.
      create_node outside "Failure" (of_payload "failure_id" e) (
        ("failure_class", text_or "failure_class" "UNKNOWN" e)
        ∷ ("attempt_id", text_or "attempt_id" "" e)
        ∷ ("message", message)
        ∷ ("recorded_at", time_of e)
        ∷ []))

  unfoldable pub repair_started : Document → Option String
  repair_started e = create_node outside "RepairAttempt" (of_payload "repair_id" e) (
      ("build_run_id", text_or "build_run_id" "" e)
      ∷ ("repair_strategy", text_or "repair_strategy" "" e)
      ∷ ("result", str "pending")
      ∷ [])

  unfoldable pub repair_completed : Document → Option String
  repair_completed e =
      update_node outside "RepairAttempt" (of_payload "repair_id" e)
        (("result", text_or "result" "unknown" e) ∷ [])

  unfoldable pub audit_completed : Document → Option String
  audit_completed e =
      create_node outside "ReleaseGate" (or_falsy (of_payload "attempt_id" e) (get "event_id" e))
        (("passed", flag "passed" e) ∷ [])

  unfoldable pub build_completed : Document → Option String
  build_completed e = update_node outside "BuildRun" (of_payload "build_run_id" e) (
      ("status", str (if truthy (of_payload "passed" e) then "completed" else "failed"))
      ∷ ("passed", flag "passed" e)
      ∷ ("preview_url", text_or "preview_url" "" e)
      ∷ ("completed_at", time_of e)
      ∷ [])

  unfoldable pub artifact_created : Document → Option String
  artifact_created e = create_node outside "Artifact" (of_payload "artifact_id" e) (
      ("build_run_id", text_or "build_run_id" "" e)
      ∷ ("sha256", text_or "sha256" "" e)
      ∷ ("size_bytes", number_or_zero "size_bytes" e)
      ∷ ("created_at", time_of e)
      ∷ [])

  -- The cases that write a name and a description.
  unfoldable pub described : String → String → Document → Option String
  described label id_key e =
      create_node outside label (of_payload id_key e)
        (("name", text_or "name" "" e) ∷ ("description", text_or "description" "" e) ∷ [])

  unfoldable pub strategy_version : Document → Option String
  strategy_version e = create_node outside "StrategyVersion" (of_payload "strategy_version_id" e) (
      ("strategy_id", text_or "strategy_id" "" e)
      ∷ ("version", number_or_zero "version" e)
      ∷ ("status", text_or "status" "candidate" e)
      ∷ [])

  -- `p.site_id || event.context?.site_id || event.subject.id || ''`
  unfoldable pub observed_site : Document → Option Value
  observed_site e =
      and_then
        (falsy_or_subject (or_falsy (of_payload "site_id" e) (prop "site_id" (get "context" e))) e)
        (λ v. some (or_falsy v (str "")))

  unfoldable pub observation_recorded : Document → Option String
  unfolding observed_site
  observation_recorded e = and_then (nullish_or_subject (of_payload "id" e) e) (λ id.
      and_then (observed_site e) (λ site. create_node outside "Observation" id (
        ("metric", text_or "metric" "" e)
        ∷ ("value", or_nullish (of_payload "value" e) (str ""))
        ∷ ("ok", flag "ok" e)
        ∷ ("site_id", site)
        ∷ ("url", text_or "url" "" e)
        ∷ ("recorded_at", time_of e)
        ∷ [])))

  unfoldable pub site_registered : Document → Option String
  site_registered e =
      and_then (nullish_or_subject (or_nullish (of_payload "id" e) (of_payload "site_id" e)) e)
        (λ id. create_node outside "Site" id (
          ("name", text_or "name" "" e)
          ∷ ("url", or_falsy (of_payload "url" e) (text_or "domain" "" e))
          ∷ ("runtime", text_or "runtime" "" e)
          ∷ ("registered_at", time_of e)
          ∷ []))

  unfoldable pub hypothesis_created : Document → Option String
  hypothesis_created e = and_then (slice_value 300 (text_or "statement" "" e)) (λ statement.
      create_node outside "Hypothesis" (of_payload "id" e) (
        ("name", text_or "name" "" e)
        ∷ ("statement", statement)
        ∷ ("status", text_or "status" "active" e)
        ∷ []))

  unfoldable pub experiment_created : Document → Option String
  experiment_created e =
      create_node outside "Experiment" (of_payload "id" e) (("name", text_or "name" "" e) ∷ [])

  unfoldable pub product_graduated : Document → Option String
  product_graduated e =
      create_node outside "Product" (of_payload "id" e)
        (("name", text_or "name" "" e) ∷ ("build_run_id", text_or "build_run_id" "" e) ∷ [])

  abbrev pub Statement : Type 0
  Statement = String × (Document → Option String)

  unfoldable pub statements : List Statement
  statements =
      ("build.started", build_started)
      ∷ ("build.attempt.started", attempt_started)
      ∷ ("build.task.completed", task_completed)
      ∷ ("build.failure.recorded", failure_recorded)
      ∷ ("build.repair.started", repair_started)
      ∷ ("build.repair.completed", repair_completed)
      ∷ ("build.audit.completed", audit_completed)
      ∷ ("build.completed", build_completed)
      ∷ ("build.artifact.created", artifact_created)
      ∷ ("strategy.registered", described "Strategy" "strategy_id")
      ∷ ("strategy.version.registered", strategy_version)
      ∷ ("observation.recorded", observation_recorded)
      ∷ ("site.registered", site_registered)
      ∷ ("failure.classified", described "FailureClass" "id")
      ∷ ("hypothesis.created", hypothesis_created)
      ∷ ("experiment.created", experiment_created)
      ∷ ("idea.created", described "Idea" "id")
      ∷ ("capability.defined", described "Capability" "id")
      ∷ ("product.graduated", product_graduated)
      ∷ []

  -- The `switch` on a type that is a text; any other type goes to the default, as an unknown one.
  abbrev pub pick : List Statement → Option String → Document → Option (List String)
  pick rows none e = some []
  pick [] (some type) e = some []
  pick ((name, run) ∷ rows) (some type) e =
      let later = pick rows (some type) e in
      if name == type then and_then (run e) (λ s. some (s ∷ [])) else later

  unfoldable pub project_statements : Document → Option (List String)
  project_statements e = pick statements (text? (get "event_type" e)) e
