-- ===== src/Dispatch/Machine.antt =====
-- The runs of a router (src/dispatch/router-dispatcher.js): calls of `dispatch` arrive and transports
-- settle in any order. A run records the calls of the build transport in their order.
use finalbuilds.Prelude.{String, ◌≡◌, some, List, [], ◌∷◌, ◌++◌}
use finalbuilds.Prelude.Dict.{Dict, lookup, insert, erase}
use finalbuilds.Prelude.Exec.{Outcome}
use finalbuilds.Model.Value.{Value, Document}
use finalbuilds.Dispatch.Router.{
  Task, Setup, Router, new_router, Opening, answers, hands_over, passes_on, begin, finish,
}

pub record Run (S : Type 0) : Type 0 where
  pub router : Router
  pub waiting : Dict Document
  pub started : List String
  pub outer : S

module _ {S : Type 0} (setup : Setup S) where
  open setup use {outbox}

  abbrev pub fresh : S → Run S
  fresh s = record { router = new_router; waiting = []; started = []; outer = s }

  abbrev pub arrive_by : Task → Run S → Opening × Router → Run S
  arrive_by task w (answers v, r) = record w { router = r }
  arrive_by task w (hands_over, r) = record w {
    router = r;
    waiting = insert task.id task.document w.waiting;
    started = w.started ++ task.id ∷ [];
  }
  arrive_by task w (passes_on, r) = record w {
    router = r;
    outer = (outbox task.document w.outer).1;
  }

  -- A call arrives and runs up to its `await`.
  unfoldable pub arrive : Task → Run S → Run S
  unfolding begin
  arrive task w = arrive_by task w (begin setup task w.router)

  -- The transport that a waiting call was handed to settles.
  unfoldable pub settle : Task → Outcome String Value → Run S → Run S
  unfolding finish
  settle task outcome w =
      let (v, r, s) = finish setup task outcome (w.router, w.outer) in
      record w { router = r; waiting = erase task.id w.waiting; outer = s }

  pub data Step (w : Run S) : Run S → Type 0 where
    arrives : (task : Task) → Step w (arrive task w)
    settles :
        (task : Task) (outcome : Outcome String Value)
        → lookup task.id w.waiting ≡ some task.document
        → Step w (settle task outcome w)

  pub data Reached : Run S → Type 0 where
    at_start : (s : S) → Reached (fresh s)
    then_step : {w v : Run S} → Reached w → Step w v → Reached v

  -- What a run leads to.
  pub data Later (w : Run S) : Run S → Type 0 where
    stays : Later w w
    goes_on : {v u : Run S} → Later w v → Step v u → Later w u
