-- ===== src/Dispatch/Outbox.antt =====
-- `JsonlTaskOutbox` (src/dispatch/outbox.js): the tasks of its file's lines. Its writes do not throw
-- here.
use finalbuilds.Prelude.{String, true, List, [], ◌∷◌, ◌++◌}
use finalbuilds.Prelude.Exec.{Exec, ok}
use finalbuilds.Model.Value.{Value, Document, bool, str, obj, fields, get}

unfoldable pub write_task : Document → Exec (List Document) String Value
write_task task lines = (
  ok (
      obj (
        fields (
          ("accepted", bool true)
          ∷ ("transport", str "jsonl-outbox")
          ∷ ("task_id", get "id" task)
          ∷ []))),
  lines ++ task ∷ [],
)
