-- ===== src/Event/StoreTests.antt =====
-- Events and artifacts in files of a base directory.
use finalbuilds.Prelude.{String, true, some, [], ◌∷◌, ◌≡◌, ◌≢◌, refl}
use finalbuilds.Prelude.Text.{◌<+>◌}
use finalbuilds.Prelude.Paths.{no_slash, is_file_name, IsFileName}
use finalbuilds.Model.Value.{Document, str, null, obj, fields}
use finalbuilds.Event.R2.{Printer, file_of, append, get_by_id, event_key, scan_prefix}
use finalbuilds.Event.LocalR2.{get_by_id-append, scan_source_misses}
use finalbuilds.Event.Artifacts.{path_of, store, verify}
use finalbuilds.Event.Intact.{IsDigest, store_verifies}

abbrev event : Document
event =
    ("event_id", str "evt_1")
    ∷ ("occurred_at", str "2026-01-02")
    ∷ ("source", obj (fields (("system", str "builda") ∷ [])))
    ∷ []

-- A printer for the one event.
abbrev printer : Printer
printer = record { stringify = λ d. "event"; parse = λ s. some event }

key_test :
    event_key "" (λ v. (2026, 1, 2)) event
    ≡ "events/year=2026/month=01/day=02/source=builda/evt_1.json"
unfolding event_key
key_test = refl

append_test : (append printer "/r2" event []).0 ≡ "/r2/events/evt_1.json"
unfolding append
append_test = refl

filled : ◌≢◌ {A = String} "evt_1" ""
filled = λ e. cc

get_by_id-append_example :
    (get_by_id printer "/r2" "evt_1" (append printer "/r2" event []).1 ≡ some (some event))
    × ((other : String)
        → no_slash other ≡ true
        → ◌≢◌ {A = String} "evt_1" other
        → get_by_id printer "/r2" other (append printer "/r2" event []).1
          ≡ get_by_id printer "/r2" other [])
get_by_id-append_example = get_by_id-append printer "/r2" "evt_1" event [] filled refl refl refl

scan_source_misses_example :
    event_key "" (λ v. (2026, 1, 2)) event ≢ scan_prefix "" (str "builda") <+> "evt_1.json"
scan_source_misses_example =
    scan_source_misses "" (λ v. (2026, 1, 2)) event (str "builda") "evt_1.json" refl

-- `path.join` normalises: another id, or a file name that leads up, can name the same file.
dot_test : file_of printer "/r2" "./evt_1" ≡ file_of printer "/r2" "evt_1"
unfolding file_of
dot_test = refl

relative_test : file_of printer "../runtime/./r2/" "evt_1" ≡ "../runtime/r2/events/evt_1.json"
unfolding file_of
relative_test = refl

dots_test : path_of (λ s. s) "/r2" "abcd" "../ef/a.zip" ≡ path_of (λ s. s) "/r2" "abef" "a.zip"
unfolding path_of
dots_test = refl

-- A digest that is the same for all contents.
abbrev digest : String → String
digest s = "abc0"

IsDigest-abc0 : IsDigest "abc0"
unfolding is_file_name
IsDigest-abc0 = record { front = refl; back = refl }

store_verifies_example :
    (verify digest "/r2"
        (digest "contents")
        "a.zip"
        (store digest "/r2" "contents" "a.zip" null []).1
      ≡ some true)
    × ((sha name : String)
        → IsDigest sha
        → IsFileName name
        → verify digest "/r2" sha name [] ≡ some true
        → verify digest "/r2" sha name (store digest "/r2" "contents" "a.zip" null []).1
          ≡ some true)
unfolding is_file_name
store_verifies_example =
    store_verifies digest "/r2" "contents" "a.zip" null [] (λ s. IsDigest-abc0) refl
