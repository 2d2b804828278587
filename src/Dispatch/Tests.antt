-- ===== src/Dispatch/Tests.antt =====
-- A build that is called for twice, and the theorems on the router at it.
use finalbuilds.Prelude.{true, false, ◌≡◌, refl, List, [], ◌∷◌}
use finalbuilds.Prelude.Text.{includes, Distinct}
use finalbuilds.Prelude.Exec.{err}
use finalbuilds.Model.Value.{Document, str}
use finalbuilds.Dispatch.Router.{Task, Setup, begin, finish, failed_task}
use finalbuilds.Dispatch.Outbox.{write_task}
use finalbuilds.Dispatch.Machine.{
  Run, fresh, arrive, settle, Reached, at_start, then_step, arrives, settles,
}
use finalbuilds.Dispatch.Once.{started_once}

abbrev setup : Setup (List Document)
setup = record { has_workorder = true; has_agentbuild = false; outbox = write_task }

abbrev build : Task
build = record { id = "t1"; document = ("id", str "t1") ∷ ("kind", str "product-build") ∷ [] }

abbrev first : Run (List Document)
first = arrive setup build (fresh setup [])

abbrev second : Run (List Document)
second = settle setup build (err "spawn failed") first

first-Reached : Reached setup first
first-Reached = then_step (at_start []) (arrives build)

second-Reached : Reached setup second
unfolding arrive begin
second-Reached = then_step first-Reached (settles build (err "spawn failed") refl)

failed_test : second.outer ≡ failed_task setup build "spawn failed" ∷ []
unfolding arrive begin settle finish write_task
failed_test = refl

started_once_example : Distinct second.started
started_once_example = started_once setup second second-Reached

was_started : includes first.started "t1" ≡ true
unfolding arrive begin
was_started = refl

abbrev other : Task
other = record { id = "t2"; document = ("id", str "t2") ∷ ("kind", str "product-build") ∷ [] }

-- The other build is called for after the first has failed.
abbrev third : Run (List Document)
third = arrive setup other second
