-- ===== src/Dispatch/Router.antt =====
-- `RouterDispatcher` (src/dispatch/router-dispatcher.js): what `dispatch` does before it awaits the
-- build transport, and what it does when the transport's promise settles. Ids of tasks are texts.
use finalbuilds.Prelude.{
  String, Bool, true, false, ◌||◌, ◌&&◌, none, some, List, [], ◌∷◌, ◌++◌, if◌then◌else◌,
}
use finalbuilds.Prelude.Text.{includes, slice}
use finalbuilds.Prelude.Dict.{Dict, lookup, insert}
use finalbuilds.Prelude.Exec.{Exec, Outcome, ok, err}
use finalbuilds.Model.Value.{Value, Document, bool, str, obj, fields, get}
use finalbuilds.Contract.Validate.{is_text}

pub record Task : Type 0 where
  pub id : String
  pub document : Document

-- The constructor's arguments: which build transports there are, and the outbox.
pub record Setup (S : Type 0) : Type 0 where
  pub has_workorder : Bool
  pub has_agentbuild : Bool
  pub outbox : Document → Exec S String Value

-- `dispatchedBuilds` and `buildResults`.
pub record Router : Type 0 where
  pub dispatched : List String
  pub results : Dict Value

abbrev pub new_router : Router
new_router = record { dispatched = []; results = [] }

-- What `dispatch` does at once: it answers, hands the task to the build transport, or passes it on to
-- the outbox.
pub data Opening : Type 0 where
  answers : Value → Opening
  hands_over passes_on : Opening

abbrev pub in_flight : Task → Value
in_flight task = obj (
    fields
      (("accepted", bool true) ∷ ("transport", str "in-flight") ∷ ("task_id", str task.id) ∷ []))

module _ {S : Type 0} (setup : Setup S) where
  open setup use {has_workorder, has_agentbuild, outbox}

  -- `task?.kind === 'product-build' && buildTransport`
  abbrev pub is_routed : Task → Bool
  is_routed task =
      is_text (get "kind" task.document) "product-build" && (has_workorder || has_agentbuild)

  unfoldable pub begin : Task → Router → Opening × Router
  begin task r =
      if is_routed task
      then elim (lookup task.id r.results) [
        | some result ↦ (answers result, r)
        | none ↦
            if includes r.dispatched task.id
            then (answers (in_flight task), r)
            else (hands_over, record r { dispatched = r.dispatched ++ task.id ∷ [] })
      ]
      else (passes_on, r)

  -- The result of a transport that threw.
  abbrev pub failure : Task → String → Value
  failure task message = obj (
      fields (
        ("accepted", bool false)
        ∷ ("transport", str (if has_workorder then "workorder" else "agentbuild"))
        ∷ ("task_id", str task.id)
        ∷ ("error", str (slice 300 message))
        ∷ []))

  -- The task that a failed dispatch leaves in the outbox.
  abbrev pub failed_task : Task → String → Document
  failed_task task message =
      insert "error" (str (slice 300 message))
        (insert "status" (str "dispatch-failed") task.document)

  -- The transport has settled: what its throw writes to the outbox may itself throw, and that is
  -- caught.
  unfoldable pub finish : Task → Outcome String Value → Router × S → Value × Router × S
  finish task (ok result) (r, s) =
      (result, record r { results = insert task.id result r.results }, s)
  finish task (err message) (r, s) = (
    failure task message,
    record r { results = insert task.id (failure task message) r.results },
    (outbox (failed_task task message) s).1,
  )
