-- ===== src/Builds/Workorder.antt =====
-- `WorkOrderDispatcher` (src/dispatch/workorder-dispatcher.js). The script it runs, `JSON.parse` and the
-- outbox, whose errors are caught, come from outside.
use Prim.Native.Char.{code}
use finalbuilds.Prelude.{String, Bool, true, false, List, [], ◌∷◌, ◌++◌, eqb, if◌then◌else◌}
use finalbuilds.Prelude.Text.{slice}
use finalbuilds.Prelude.Dict.{insert}
use finalbuilds.Prelude.Exec.{Outcome, ok, err}
use finalbuilds.Model.Value.{Value, Document, null, bool, str, get, prop, truthy, or_nullish}

-- The standard output of the script for an idea, or its error, and the parse of a text, or its error.
pub record Workorder : Type 0 where
  pub create_run : Value → Outcome String String
  pub parse : String → Outcome String Value
  pub has_outbox : Bool

-- `s.slice(s.indexOf('{'))`, which is the last character where there is no brace.
abbrev from_brace : String → String
from_brace String.[] = ""
from_brace (String.◌∷◌ c String.[]) = String.◌∷◌ c ""
from_brace (String.◌∷◌ c (String.◌∷◌ d s)) =
    if eqb (code c) b'{' then String.◌∷◌ c (String.◌∷◌ d s) else from_brace (String.◌∷◌ d s)

-- `task.subject_id ?? task.build_brief?.idea?.id`
abbrev idea_of : Document → Value
idea_of task = or_nullish (get "subject_id" task) (prop "id" (prop "idea" (get "build_brief" task)))

abbrev refused : Document → String → Document
refused task e =
    ("accepted", bool false)
    ∷ ("transport", str "workorder")
    ∷ ("task_id", get "id" task)
    ∷ ("error", str e)
    ∷ []

abbrev accepted : Document → Value → Document
accepted task run =
    ("accepted", bool true)
    ∷ ("transport", str "workorder")
    ∷ ("task_id", get "id" task)
    ∷ ("run", run)
    ∷ []

-- `{ ...task, status: 'workorder-created', run_id: run.run_id }`
abbrev mirror_of : Document → Value → Document
mirror_of task run =
    insert "run_id" (prop "run_id" run) (insert "status" (str "workorder-created") task)

abbrev is_null : Value → Bool
is_null null = true
is_null v = false

-- The mirror reads `run.run_id`, which throws of `null`.
abbrev with_run :
    Workorder → Document → Outcome String Value → List Document → Document × List Document
with_run w task (err e) outbox = (refused task (slice 300 e), outbox)
with_run w task (ok run) outbox =
    if w.has_outbox
    then (if is_null run
        then (refused task "Cannot read properties of null (reading 'run_id')", outbox)
        else (accepted task run, outbox ++ mirror_of task run ∷ []))
    else (accepted task run, outbox)

abbrev with_output :
    Workorder → Document → Outcome String String → List Document → Document × List Document
with_output w task (err e) outbox = (refused task (slice 300 e), outbox)
with_output w task (ok stdout) outbox = with_run w task (w.parse (from_brace stdout)) outbox

-- `dispatch(task)`: the answer, and the tasks in the outbox.
unfoldable pub dispatch : Workorder → Document → List Document → Document × List Document
dispatch w task outbox =
    if truthy (idea_of task)
    then with_output w task (w.create_run (idea_of task)) outbox
    else (refused task "no subject_id", outbox)
