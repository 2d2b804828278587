-- ===== src/Controller/Factory.antt =====
-- `FactoryController.tick` (src/controller/factory-controller.js) over the graph, the planner, the bus and
-- a dispatcher. The random ids, the classes of the limits file and the totals come from outside.
use finalbuilds.Prelude.{ℕ, suc, String, List, [], ◌∷◌, ◌++◌, if◌then◌else◌}
use finalbuilds.Prelude.Int.{pos}
use finalbuilds.Prelude.Text.{◌<+>◌, slice}
use finalbuilds.Prelude.Exec.{Outcome, Exec, ok, err, pure, ◌>>=◌, ◌>>◌}
use finalbuilds.Model.Value.{
  Value, Document, undefined, num, str, obj, get, truthy, or_nullish, fields,
}
use finalbuilds.Model.Template.{template}
use finalbuilds.Event.Log.{Stamp}
use finalbuilds.Event.Bus.{World, BusError, Emission, Handlers, emit, handler_failed}
use finalbuilds.Planner.Select.{select}
use finalbuilds.Controller.Candidates.{
  Candidate, Scoring, scale_of, active_count, candidates, builds_of, ideas_of,
}

-- The ids of the n-th build and task, and the stamps of its three events.
pub record Fresh : Type 0 where
  pub build_id : ℕ → String
  pub task_id : ℕ → String
  pub queued : ℕ → Stamp
  pub created : ℕ → Stamp
  pub answered : ℕ → Stamp

abbrev event : Stamp → String → Document → Emission
event stamp type payload = record { stamp = stamp; type = type; payload = payload; meta = [] }

unfoldable build_name : Candidate → Value
unfolding template
build_name c = str ("Build " <+> template c.name)

-- `{ ...build, status }`
unfoldable pub build_of : String → Candidate → Value → String → Document
unfolding build_name
build_of id c evaluation status =
    ("id", str id)
    ∷ ("name", build_name c)
    ∷ ("idea_id", str c.id)
    ∷ ("status", str status)
    ∷ ("evaluation", evaluation)
    ∷ []

-- `task`
unfoldable pub task_of : String → String → Candidate → Value → Document
unfolding build_name
task_of id build_id c evaluation =
    ("id", str id)
    ∷ ("title", build_name c)
    ∷ ("subject_id", str c.id)
    ∷ ("kind", str "product-build")
    ∷ ("risk_class", num (pos 2))
    ∷ ("status", str "ready")
    ∷ ("build_run_id", str build_id)
    ∷ (
      "build_brief",
      obj (
          fields (
            ("idea", obj (fields c.document))
            ∷ ("evaluation", evaluation)
            ∷ (
              "invariant",
              str "Build only the missing capability delta; reuse shared standards and primitives.",
            )
            ∷ [])),
    )
    ∷ []

-- The event after the dispatcher's answer.
unfoldable pub answer_event : Stamp → String → Candidate → Value → Document → Emission
unfolding build_of template
answer_event stamp id c evaluation result =
    if truthy (get "accepted" result)
    then event stamp "build.started"
        (build_of id c evaluation "running" ++ ("rejected_reason", undefined) ∷ [])
    else event stamp "build.completed" (
        build_of id c evaluation "rejected"
        ++ (
          "rejected_reason",
          str (slice 200 (template (or_nullish (get "error" result) (get "transport" result)))),
        )
          ∷ [])

-- An entry of `dispatched`.
pub record Started : Type 0 where
  pub idea : String
  pub build : String
  pub task : String
  pub answer : Document

module _ {D E : Type 0} (handlers : Handlers D E) (dispatch : Document → Exec D E Document) where
  abbrev pub of_dispatch :
      World D → Outcome E Document × D → Outcome (BusError E) Document × World D
  of_dispatch w (ok result, d) = (ok result, record w { outer = d })
  of_dispatch w (err e, d) = (err (handler_failed e), record w { outer = d })

  unfoldable pub call : Document → Exec (World D) (BusError E) Document
  call task w = of_dispatch w (dispatch task w.outer)

  -- The body of the loop over the selected ideas, up to the dispatcher's answer.
  unfoldable pub hand_over : Fresh → ℕ → Candidate → Value → Exec (World D) (BusError E) Document
  unfolding build_of task_of
  hand_over fresh n c evaluation =
      let task = task_of (fresh.task_id n) (fresh.build_id n) c evaluation in
      let queued = build_of (fresh.build_id n) c evaluation "queued" in
      emit handlers (event (fresh.queued n) "build.started" queued)
      >> (emit handlers (event (fresh.created n) "task.created" task) >> call task)

  -- What the loop's entry of an idea is.
  abbrev pub started_of : Fresh → ℕ → Candidate → Document → Started
  started_of fresh n c result = record {
    idea = c.id;
    build = fresh.build_id n;
    task = fresh.task_id n;
    answer = result;
  }

  abbrev pub answered_with : Fresh → ℕ → Candidate → Value → Document → Emission
  answered_with fresh n c evaluation result =
      answer_event (fresh.answered n) (fresh.build_id n) c evaluation result

  -- The body of the loop over the selected ideas.
  unfoldable pub start_build : Fresh → ℕ → Candidate → Value → Exec (World D) (BusError E) Started
  unfolding hand_over answer_event
  start_build fresh n c evaluation = hand_over fresh n c evaluation >>= λ result.
      emit handlers (answered_with fresh n c evaluation result) >>= λ _.
      pure (started_of fresh n c result)

  unfoldable pub start_builds :
      Fresh → (Candidate → Value) → ℕ → List Candidate → Exec (World D) (BusError E) (List Started)
  unfolding start_build
  start_builds fresh evaluation n [] = pure []
  start_builds fresh evaluation n (c ∷ cs) = do
    started ← start_build fresh n c (evaluation c)
    more ← start_builds fresh evaluation (suc n) cs
    pure (started ∷ more)

  -- `tick({ limit })`: `active_before` and `selected`.
  unfoldable pub tick :
      Scoring → List String → Fresh → ℕ → ℕ → Exec (World D) (BusError E) (ℕ × List Started)
  unfolding start_builds candidates select
  tick scoring limits fresh max_building limit w =
      let builds = builds_of w.graph in
      let active = active_count builds in
      let chosen =
        select (scale_of scoring) (candidates limits (ideas_of w.graph) builds) limit active
          max_building in
      (do dispatched ← start_builds fresh scoring.evaluation 0 chosen; pure (active, dispatched)) w
