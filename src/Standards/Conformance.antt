-- ===== src/Standards/Conformance.antt =====
-- `ConformanceEvaluator` (src/standards/conformance.js). Values that are compared are integers, and
-- `includes` of a value that is no text and no array is false.
use finalbuilds.Prelude.{
  String, Bool, true, false, not, ◌&&◌, ◌||◌, Option, none, some, List, [], ◌∷◌, any, ◌==◌,
  if◌then◌else◌, leb, eqb, map,
}
use Prim.Native.Char.{Char, code}
use finalbuilds.Prelude.Int.{pos, ltb_ℤ}
use finalbuilds.Prelude.Text.{◌<+>◌}
use finalbuilds.Prelude.Dict.{Dict, lookup, insert}
use finalbuilds.Model.Value.{
  Value, Document, num, str, arr, obj, get, prop, truthy, or_nullish, array, elements, items,
  fields, text?,
}
use finalbuilds.Model.Template.{template, join_items}
use finalbuilds.Model.EntityType
use finalbuilds.Model.RelKind
use finalbuilds.Contract.Letters.{codes, has_part}
use finalbuilds.Reconcile.Order.{less}
use finalbuilds.Reconcile.Drift.{is_one}
use finalbuilds.Graph.InMemory.{Graph, Entity, Neighbor, find_entities, neighbors, outgoing}

-- Per subject and metric, the data of the latest observation. Only texts are ever looked up.
abbrev pub Latest : Type 0
Latest = Dict (Dict Document)

abbrev observed_text : Document → String
observed_text d = template (or_nullish (get "observed_at" d) (str ""))

-- `!prev || String(o.observed_at ?? '') >= String(prev.observed_at ?? '')`
abbrev is_newer : Document → Option Document → Bool
is_newer d none = true
is_newer d (some previous) = not (less (codes (observed_text d)) (codes (observed_text previous)))

abbrev metrics_of : String → Latest → Dict Document
metrics_of subject latest = elim (lookup subject latest) [ none ↦ [] | some bucket ↦ bucket ]

unfoldable pub note : String → String → Document → Latest → Latest
note subject metric d latest =
    let bucket = metrics_of subject latest in
    insert subject (if is_newer d (lookup metric bucket) then insert metric d bucket else bucket)
      latest

abbrev note_pair : Option String → Option String → Document → Latest → Latest
note_pair (some subject) (some metric) d latest =
    if subject == "" || metric == "" then latest else note subject metric d latest
note_pair _ _ d latest = latest

-- `loadLatestObservations()`
unfoldable pub load_latest : List Entity → Latest → Latest
unfolding note
load_latest [] latest = latest
load_latest (o ∷ os) latest = load_latest os (
    note_pair (text? (get "subject_id" o.document)) (text? (get "metric" o.document)) o.document
      latest)

-- `latest(metric)` of a site.
abbrev pub latest_of : Latest → String → String → Option Document
latest_of latest site metric = lookup metric (metrics_of site latest)

abbrev one_of : Option Document → Bool
one_of none = false
one_of (some d) = is_one (get "value" d)

abbrev is_up : Value → Bool
is_up (num n) = ltb_ℤ (pos 0) n && ltb_ℤ n (pos 500)
is_up v = false

abbrev healthy : Option Document → Bool
healthy none = false
healthy (some d) = is_up (get "value" d)

abbrev is_there : Option Document → Bool
is_there none = false
is_there (some d) = true

-- `CHECKS[id]` on the latest observations; a requirement without a check passes.
unfoldable pub check : String → (String → Option Document) → Bool
check id latest =
    if id == "llms-txt"
    then one_of (latest "llms_txt.present")
    else (if id == "robots-txt"
        then one_of (latest "robots_txt.present")
        else (if id == "agent-discovery-files"
            then one_of (latest "llms_txt.present") && one_of (latest "robots_txt.present")
            else (if id == "http-health"
                then healthy (latest "http.status")
                else (if id == "usage-telemetry" then is_there (latest "api.calls") else true))))

abbrev pub is_str : String → Value → Bool
is_str s (str t) = t == s
is_str s v = false

abbrev mentions : Value → String → Bool
mentions (str t) s = has_part (codes t) (codes s)
mentions (arr xs) s = any (is_str s) (elements xs)
mentions v s = false

-- `isApplicable(requirementId, site)`
unfoldable pub is_applicable : Value → Entity → Bool
is_applicable id site =
    if is_str "usage-telemetry" id
    then (if mentions (get "telemetry_exemptions" site.document) "usage-telemetry"
        then false
        else is_str "cloudflare-workers" (get "runtime" site.document)
          || truthy (get "cloudflare_worker" site.document))
    else true

abbrev passes_id : Value → (String → Option Document) → Bool
passes_id (str id) latest = check id latest
passes_id id latest = true

abbrev pub passes : (String → Option Document) → Value → Bool
passes latest req = passes_id (prop "id" req) latest

-- The requirement is looked at.
abbrev pub applies : Entity → Value → Bool
applies site req =
    not (is_str "required-if-applicable" (prop "severity" req))
    || is_applicable (prop "id" req) site

abbrev pub is_required : Value → Bool
is_required req = is_str "required" (prop "severity" req)

-- `failedRequired` and `failedSoft`, in their order.
unfoldable pub failures :
    (Value → Bool) → Entity → (String → Option Document) → List Value → List Value
unfolding check is_applicable
failures kind site latest [] = []
failures kind site latest (req ∷ reqs) =
    let rest = failures kind site latest reqs in
    if applies site req && (not (passes latest req) && kind req) then prop "id" req ∷ rest else rest

pub record Result : Type 0 where
  pub site_id : String
  pub standard_version_id : String
  pub compliant : Bool
  pub failed_required : List Value
  pub failed_recommended : List Value

abbrev pub is_none : List Value → Bool
is_none [] = true
is_none (v ∷ vs) = false

-- The body of the loop over the desired versions.
unfoldable pub evaluate : Entity → (String → Option Document) → Entity → Result
unfolding failures
evaluate site latest version =
    let reqs = array (get "requirements" version.document) in
    let required = failures is_required site latest reqs in
    record {
      site_id = site.id;
      standard_version_id = version.id;
      compliant = is_none required;
      failed_required = required;
      failed_recommended = failures (λ r. not (is_required r)) site latest reqs;
    }

abbrev evaluate_all :
    Entity → (String → Option Document) → Option (List Neighbor) → Option (List Result)
evaluate_all site latest none = none
evaluate_all site latest (some desired) = some (map (λ n. evaluate site latest n.entity) desired)

-- `evaluateSite(site)`; `none` is a fault of `neighbors`.
unfoldable pub evaluate_site : Graph → Entity → Option (List Result)
unfolding evaluate load_latest neighbors find_entities
evaluate_site g site =
    let latest = load_latest (find_entities (some EntityType.observation) (λ _. true) g) [] in
    evaluate_all site (latest_of latest site.id)
      (neighbors site.id outgoing (some (RelKind.conforms_to ∷ [])) g)

-- `replaceAll(/[^a-zA-Z0-9_]/g, '_')`
abbrev pub plain_id : String → String
plain_id String.[] = ""
plain_id (String.◌∷◌ c s) =
    let n = code c in
    let word =
      leb b'a' n && leb n b'z'
      || (leb b'A' n && leb n b'Z' || (leb b'0' n && leb n b'9' || eqb n b'_')) in
    String.◌∷◌ (if word then c else underscore) (plain_id s)
  where
    underscore : Char
    underscore = "_"

-- The argument of `observe` that `recordCompliance` makes of a result; its event and what is stored of it
-- are in Standards.Recorded.
unfoldable pub observation_of : Result → Document
unfolding join_items
observation_of r =
    ("id", str (plain_id ("obs_conf_" <+> (r.site_id <+> ("_" <+> r.standard_version_id)))))
    ∷ ("sensor_id", str "sensor_conformance")
    ∷ ("subject_id", str r.site_id)
    ∷ ("metric", str "standard.compliance")
    ∷ ("value", num (pos (if r.compliant then 1 else 0)))
    ∷ ("standard_version_id", str r.standard_version_id)
    ∷ (
      "dimensions",
      obj (
          fields (
            ("failed_required", str (join_items (items r.failed_required)))
            ∷ ("failed_recommended", str (join_items (items r.failed_recommended)))
            ∷ [])),
    )
    ∷ []

-- The arguments of the calls of `observe` that `recordCompliance(controlPlane, results)` makes, in their
-- order.
unfoldable pub record_compliance : List Result → List Document
unfolding observation_of
record_compliance results = map observation_of results
