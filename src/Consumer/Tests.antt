-- ===== src/Consumer/Tests.antt =====
-- Runs of the outbox consumer over a small outbox.
use finalbuilds.Prelude.{
  String, false, List, [], ◌∷◌, Option, none, some, ◌≡◌, ◌≤◌, refl, ◌==◌, inl, length, arith, ◌+◌,
  if◌then◌else◌,
}
use finalbuilds.Prelude.Dict.{lookup}
use finalbuilds.Prelude.Exec.{ok, err}
use finalbuilds.Model.Value.{Value, obj, str, fields}
use finalbuilds.Consumer.Brief.{Env}
use finalbuilds.Consumer.Loop.{Desk, Repair, main}
use finalbuilds.Consumer.Open.{AllOpen, opened_once}
use finalbuilds.Consumer.Settled.{Settled, run_consumes, run_again}

abbrev drift_task : String → Value
drift_task id = obj (
    fields (
      ("id", str id)
      ∷ ("kind", str "standard-reconcile")
      ∷ (
        "payload",
        obj (fields (("site_id", str "site_a") ∷ ("standard_version_id", str "std_1") ∷ [])),
      )
      ∷ []))

abbrev mirror : Value
mirror = obj (fields (("id", str "t3") ∷ ("status", str "dispatch-failed") ∷ []))

abbrev read_line : String → Option Value
read_line line =
    if line == "one"
    then some (drift_task "t1")
    else (if line == "two"
        then some (drift_task "t2")
        else (if line == "three" then some mirror else none))

abbrev outbox : List String
outbox = "one" ∷ "two" ∷ "junk" ∷ "three" ∷ []

-- A graph with no rows and no command.
abbrev at_hand : Env
at_hand = record {
  parse = read_line;
  query = λ q. ok [];
  int_id = λ s. 7;
  digest = λ s. s;
  repair_cmd = "";
  accepts = λ past. false;
  now = "now";
}

abbrev refusing : Env
refusing = record at_hand { repair_cmd = "repair" }

abbrev unreachable : Env
unreachable = record at_hand { query = λ q. err "Hydra 500" }

abbrev fresh : Desk
fresh = record {
  consumed = [];
  saved = none;
  repairs = [];
  briefs = [];
  handed = [];
  posted = [];
  acted = 0;
}

-- Two tasks of one condition make one repair; the mirror is only consumed.
abbrev after_run : Desk
after_run = (main at_hand outbox fresh).1

run_test : after_run.consumed ≡ "t1" ∷ "t2" ∷ "t3" ∷ []
unfolding main
run_test = refl

one_repair_test : length after_run.repairs + length after_run.posted ≡ 2
unfolding main
one_repair_test = refl

-- Where the command refuses, nothing but the mirror is consumed and no repair is filed.
refused_test : (main refusing outbox fresh).1.consumed ≡ "t3" ∷ []
unfolding main
refused_test = refl

-- An error of the graph ends the run.
error_test : (main unreachable outbox fresh).0 ≡ err "Hydra 500"
unfolding main
error_test = refl

none_open : AllOpen []
none_open = λ k r h. cc

opened_once_example :
    ((key : String) (r : Repair)
      → lookup key [] ≡ some r
      → lookup key (main at_hand outbox fresh).1.repairs ≡ some r)
    × AllOpen (main at_hand outbox fresh).1.repairs
    × (length (main at_hand outbox fresh).1.posted + 0
        ≡ 0 + length (main at_hand outbox fresh).1.repairs)
opened_once_example = opened_once at_hand outbox fresh none_open

ran : main at_hand outbox fresh ≡ (ok tt, after_run)
unfolding main
ran = refl

short : length after_run.consumed ≤ 500
unfolding main
short = omega arith

run_consumes_example : Settled read_line after_run.consumed outbox
run_consumes_example = run_consumes at_hand outbox fresh after_run (inl refl) ran

run_again_example : main unreachable outbox after_run ≡ (ok tt, record after_run { acted = 0 })
run_again_example = run_again at_hand unreachable outbox fresh after_run (inl refl) ran short refl
