-- ===== src/Consumer/Loop.antt =====
-- `main` of the outbox consumer (scripts/outbox-consumer.mjs). An id of a task that is not a text counts
-- as a missing one, a file that cannot be read as its fallback, and writes of files succeed.
use finalbuilds.Prelude.{
  ℕ, zero, suc, ◌-◌, String, Bool, true, false, ◌||◌, Option, none, some, List, [], ◌∷◌, ◌++◌,
  length, ◌==◌, if◌then◌else◌,
}
use finalbuilds.Prelude.Int.{pos}
use finalbuilds.Prelude.Text.{◌<+>◌, includes}
use finalbuilds.Prelude.Dict.{Dict, lookup, insert}
use finalbuilds.Prelude.Exec.{Outcome, Exec, ok, err, for_each}
use finalbuilds.Model.Value.{Value, Document, num, str, obj, prop, or_nullish, fields}
use finalbuilds.Consumer.Brief.{Env, latest_observations, requirements_of, repair_key, brief_of}

-- An entry of open-repairs.json.
pub record Repair : Type 0 where
  pub task_id : String
  pub opened_at : String
  pub still_open : Bool

-- The consumed ids in memory and in the state file, the open repairs, the briefs by task, the briefs
-- handed to the command, the observations posted, and `acted`.
pub record Desk : Type 0 where
  pub consumed : List String
  pub saved : Option (List String)
  pub repairs : Dict Repair
  pub briefs : Dict String
  pub handed : List String
  pub posted : List Document
  pub acted : ℕ

-- `consumed.add(id)`
unfoldable pub add : String → List String → List String
add id ids = if includes ids id then ids else ids ++ id ∷ []

unfoldable pub consume : String → Desk → Desk
unfolding add
consume id s = record s { consumed = add id s.consumed }

-- The task of a line, with its id, when it has one.
unfoldable pub task_of : (String → Option Value) → String → Option (String × Value)
task_of parse line = elim (parse line) [
  | none ↦ none
  | some task ↦ elim (prop "id" task) [
    | str id ↦ (if id == "" then none else some (id, task))
    | _ ↦ none
  ]
]

abbrev is_text : Value → String → Bool
is_text (str s) t = s == t
is_text v t = false

-- A mirror of a product build is not a repair.
unfoldable pub is_mirror : Value → Bool
is_mirror task =
    is_text (prop "kind" task) "product-build"
    || (is_text (prop "status" task) "workorder-created"
        || is_text (prop "status" task) "dispatch-failed")

abbrev pub site_of : Value → Value
site_of task =
    or_nullish (prop "site_id" (prop "payload" task))
      (or_nullish (prop "subject_id" task) (str "unknown_site"))

abbrev pub version_of : Value → Value
version_of task = or_nullish (prop "standard_version_id" (prop "payload" task)) (str "")

-- `openRepairs[repairKey]?.open`
abbrev pub is_open : String → Dict Repair → Bool
is_open key repairs = elim (lookup key repairs) [ none ↦ false | some r ↦ r.still_open ]

-- The observation that a dispatched repair is reported with.
abbrev pub report : Env → String → Value → String → Document
report env id site executed_by =
    ("id", str ("obs_repair_" <+> id))
    ∷ ("sensor_id", str "sensor_conformance")
    ∷ ("subject_id", site)
    ∷ ("metric", str "repair.dispatched")
    ∷ ("value", num (pos 1))
    ∷ ("dimensions", obj (fields (("task_id", str id) ∷ ("executed_by", str executed_by) ∷ [])))
    ∷ ("observed_at", str env.now)
    ∷ []

-- After an accepted dispatch.
unfoldable pub opened : Env → String → Value → String → String → Desk → Desk
unfolding consume
opened env id site key executed_by s = consume id (record s {
  repairs = insert key (record { task_id = id; opened_at = env.now; still_open = true }) s.repairs;
  posted = s.posted ++ report env id site executed_by ∷ [];
  acted = suc s.acted;
})

-- From the brief on: without a command the brief is all, a command has to end with 0.
unfoldable pub dispatch_repair : Env → String → Value → String → String → Desk → Desk
unfolding opened
dispatch_repair env id site key brief s =
    let written = record s { briefs = insert id brief s.briefs } in
    if env.repair_cmd == ""
    then opened env id site key "brief-only" written
    else (let started = record written { handed = s.handed ++ id ∷ [] } in
        if env.accepts s.handed then opened env id site key env.repair_cmd started else started)

-- A task that is no duplicate of an open repair is dispatched.
unfoldable pub repair : Env → String → Value → List Value → Dict String → Desk → Desk
unfolding dispatch_repair repair_key consume
repair env id task reqs obs s =
    let site = site_of task in
    let version = version_of task in
    let key = repair_key env site version reqs in
    if is_open key s.repairs
    then consume id s
    else dispatch_repair env id site key (brief_of task site version reqs obs) s

-- With the two answers of the graph; an error of a query ends the run.
unfoldable pub answered :
    Env
    → String
    → Value
    → Outcome String (Dict String)
    → Outcome String (List Value)
    → Exec Desk String (Unit {0})
unfolding repair
answered env id task (err e) reqs s = (err e, s)
answered env id task (ok obs) (err e) s = (err e, s)
answered env id task (ok obs) (ok reqs) s = (ok tt, repair env id task reqs obs s)

unfoldable pub look_up : Env → String → Value → Exec Desk String (Unit {0})
unfolding answered latest_observations requirements_of
look_up env id task =
    answered env id task (latest_observations env (site_of task))
      (requirements_of env (version_of task))

-- The body of the loop for a task with an id.
unfoldable pub take_up : Env → String → Value → Exec Desk String (Unit {0})
unfolding look_up is_mirror consume
take_up env id task s =
    if includes s.consumed id
    then (ok tt, s)
    else (if is_mirror task then (ok tt, consume id s) else look_up env id task s)

unfoldable pub on_task : Env → Option (String × Value) → Exec Desk String (Unit {0})
unfolding take_up
on_task env none s = (ok tt, s)
on_task env (some (id, task)) s = take_up env id task s

-- The body of the loop.
unfoldable pub handle : Env → String → Exec Desk String (Unit {0})
unfolding on_task task_of
handle env line = on_task env (task_of env.parse line)

-- `new Set(ids)`
abbrev pub set_of : List String → List String → List String
set_of [] ids = ids
set_of (x ∷ xs) ids = set_of xs (add x ids)

abbrev pub drop : ℕ → List String → List String
drop zero xs = xs
drop (suc n) [] = []
drop (suc n) (x ∷ xs) = drop n xs

-- `ids.slice(-500)`
abbrev pub last_ids : List String → List String
last_ids ids = drop (length ids - 500) ids

unfoldable pub load : Desk → Desk
unfolding add
load s = record s { consumed = elim s.saved [ none ↦ [] | some ids ↦ set_of ids [] ]; acted = 0 }

unfoldable pub save : Desk → Desk
save s = record s { saved = some (last_ids s.consumed) }

abbrev pub closing : Outcome String (Unit {0}) × Desk → Outcome String (Unit {0}) × Desk
closing (ok a, t) = (ok a, save t)
closing (err e, t) = (err e, t)

-- `main`, over the lines of the outbox: a run that throws writes no state.
unfoldable pub main : Env → List String → Desk → Outcome String (Unit {0}) × Desk
unfolding load save handle for_each
main env lines s = closing (for_each (handle env) lines (load s))
