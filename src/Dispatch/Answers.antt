-- ===== src/Dispatch/Answers.antt =====
-- How a run of the router goes on after a build has settled (src/dispatch/router-dispatcher.js).
use finalbuilds.Prelude.{String, ◌≡◌, none, some}
use finalbuilds.Prelude.Dict.{lookup}
use finalbuilds.Model.Value.{Value}
use finalbuilds.Dispatch.Router.{Setup, Router}
use finalbuilds.Dispatch.Machine.{Run}

module _ {S : Type 0} (setup : Setup S) where
  -- The id has the result, and no call of the transport is waited for under it.
  record Settled (id : String) (v : Value) (w : Run S) : Type 0 where
    result : lookup id w.router.results ≡ some v
    over : lookup id w.waiting ≡ none
