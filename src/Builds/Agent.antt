-- ===== src/Builds/Agent.antt =====
-- `AgentBuildDispatcher` and `recordReceipt` (src/dispatch/agentbuild-dispatcher.js). The child process
-- comes from outside.
use finalbuilds.Prelude.{
  String, true, false, ◌&&◌, Option, none, some, List, [], ◌∷◌, if◌then◌else◌,
}
use finalbuilds.Prelude.Paths.{join}
use finalbuilds.Prelude.Text.{◌<+>◌}
use finalbuilds.Prelude.Dict.{Dict, insert}
use finalbuilds.Prelude.Exec.{Outcome, ok, err}
use finalbuilds.Model.Value.{
  Value, Document, bool, str, arr, obj, nil, end, prop, truthy, or_nullish, fields,
}
use finalbuilds.Model.Template.{template}
use finalbuilds.Builds.Blueprint.{generate_blueprint}

-- How the child ended: its error, if any, and its standard output.
pub record Child : Type 0 where
  pub error : Option String
  pub stdout : String

-- `JSON.parse`, the root, and the child by the path and the text of its blueprint.
pub record AgentBuild : Type 0 where
  pub parse : String → Option Value
  pub root : String
  pub run : String → String → Child

-- `_parseReceipt(stdout)`
abbrev pub parse_receipt : (String → Option Value) → String → Value
parse_receipt parse stdout = elim (parse stdout) [
  | some receipt ↦ receipt
  | none ↦ obj (fields (("raw", str stdout) ∷ ("release_passed", bool false) ∷ []))
]

-- `_runBuild(blueprintPath)`: a child with an error and no output rejects.
abbrev of_child : (String → Option Value) → Child → Outcome String Value
of_child parse child = elim child.error [
  | none ↦ ok (parse_receipt parse child.stdout)
  | some e ↦ if truthy (str child.stdout) then ok (parse_receipt parse child.stdout) else err e
]

-- `path.join(root, '.agentbuild', 'blueprints', id + '.md')`
unfoldable pub blueprint_path : AgentBuild → Value → String
unfolding template join
blueprint_path agent task =
    join agent.root (".agentbuild/blueprints/" <+> (template (prop "id" task) <+> ".md"))

abbrev or_empty : Value → Value
or_empty v = or_nullish v (obj end)

-- A missing invariant prints like the default, the empty text.
unfoldable pub task_blueprint : Value → String
unfolding generate_blueprint
task_blueprint task =
    let brief = or_empty (prop "build_brief" task) in
    generate_blueprint (or_empty (prop "idea" brief)) (or_empty (prop "evaluation" brief))
      (prop "invariant" brief)

abbrev dispatched : Value → Outcome String Value → Outcome String Document
dispatched task (err e) = err e
dispatched task (ok receipt) = ok (
    ("accepted", bool true)
    ∷ ("transport", str "agentbuild")
    ∷ ("task_id", prop "id" task)
    ∷ ("receipt", receipt)
    ∷ [])

-- `dispatch(task)`, over the files.
unfoldable pub dispatch : AgentBuild → Value → Dict String → Outcome String Document × Dict String
unfolding blueprint_path task_blueprint
dispatch agent task files =
    let path = blueprint_path agent task in
    let blueprint = task_blueprint task in
    (dispatched task (of_child agent.parse (agent.run path blueprint)), insert path blueprint files)

abbrev build_of : Value → Value
build_of task = or_nullish (prop "build_run_id" task) (prop "id" task)

unfoldable pub completed : Value → Value → Document
unfolding template
completed task receipt =
    ("id", build_of task)
    ∷ ("name", str ("Build " <+> template (prop "title" task)))
    ∷ ("idea_id", prop "subject_id" task)
    ∷ ("status", str (if truthy (prop "release_passed" receipt) then "completed" else "failed"))
    ∷ ("release_passed", prop "release_passed" receipt)
    ∷ ("preview_url", prop "preview_url" receipt)
    ∷ ("artifact_path", prop "artifact_path" receipt)
    ∷ ("task_ids", prop "task_ids" receipt)
    ∷ ("repair_loops", prop "repair_loops" receipt)
    ∷ ("task_failures", prop "task_failures" receipt)
    ∷ ("sandbox_restarts", prop "sandbox_restarts" receipt)
    ∷ ("mode", prop "mode" receipt)
    ∷ ("run_id", prop "run_id" receipt)
    ∷ []

unfoldable pub graduated : Value → Value → Document
unfolding template
graduated task receipt =
    ("id", str ("product-" <+> template (build_of task)))
    ∷ ("name", prop "title" task)
    ∷ ("build_run_id", build_of task)
    ∷ ("capability_ids", arr nil)
    ∷ ("preview_url", prop "preview_url" receipt)
    ∷ []

-- The events that `recordReceipt` emits, in their order.
unfoldable pub record_receipt : Value → Value → List (String × Document)
unfolding completed graduated
record_receipt task receipt =
    ("build.completed", completed task receipt)
    ∷ (if truthy (prop "release_passed" receipt) && truthy (prop "preview_url" receipt)
        then ("product.graduated", graduated task receipt) ∷ []
        else [])
