-- ===== src/Consumer/Brief.antt =====
-- What the consumer of the outbox asks of the graph, and the brief it writes of the answers
-- (scripts/outbox-consumer.mjs). A JSON value in the place of an object counts as an object without
-- properties.
use finalbuilds.Prelude.{
  ℕ, String, Bool, true, false, not, Option, none, some, List, [], ◌∷◌, ◌++◌, map, keep, ◌==◌,
  if◌then◌else◌,
}
use finalbuilds.Prelude.Int.{pos}
use finalbuilds.Prelude.Text.{◌<+>◌, slice, join_lines}
use finalbuilds.Prelude.Dict.{Dict, contains, insert}
use finalbuilds.Prelude.Exec.{Outcome, ok, err}
use finalbuilds.Model.Value.{
  Value, Document, undefined, num, str, get, prop, truthy, or_nullish, array, items,
}
use finalbuilds.Model.Template.{template, join_items}
use finalbuilds.Contract.Letters.{codes}
use finalbuilds.Reconcile.Order.{less}

-- What a run of the script finds: `JSON.parse`, the answers of `cypher` (or its error), the number and
-- the hexadecimal digest of a hash, REPAIR_CMD, whether the command ends with 0 by the briefs handed
-- to it before, and the clock.
pub record Env : Type 0 where
  pub parse : String → Option Value
  pub query : String → Outcome String (List Document)
  pub int_id : String → ℕ
  pub digest : String → String
  pub repair_cmd : String
  pub accepts : List String → Bool
  pub now : String

-- `text (at, without its fraction)`
unfoldable pub observed : Document → String
unfolding template
observed row =
    template (get "value" row) <+> (" (" <+> (slice 19 (template (get "at" row)) <+> "Z)"))

-- The first row of a metric is its latest.
unfoldable pub latest_of : List Document → Dict String → Dict String
unfolding observed
latest_of [] latest = latest
latest_of (row ∷ rows) latest =
    let metric = template (get "metric" row) in
    latest_of rows (if contains metric latest then latest else insert metric (observed row) latest)

-- `latestObservations(siteId)`
unfoldable pub latest_observations : Env → Value → Outcome String (Dict String)
unfolding latest_of
latest_observations env site =
    elim (env.query (
      "MATCH (n:Observation) WHERE n.site_id = '"
      <+> (template site
          <+> "' RETURN n.metric AS metric, n.value AS value, n.recorded_at AS at ORDER BY n.recorded_at DESC LIMIT 20"))) [
            | err e ↦ err e
            | ok rows ↦ ok (latest_of rows [])
          ]

-- `rows[0]?.data`
abbrev first_data : List Document → Value
first_data [] = undefined
first_data (row ∷ rows) = get "data" row

abbrev parsed_requirements : Option Value → Outcome String (List Value)
parsed_requirements none = err "SyntaxError"
parsed_requirements (some v) = ok (array (prop "requirements" v))

-- `standardRequirements(versionId)`; a hash takes texts only.
unfoldable pub standard_requirements : Env → Value → Outcome String (List Value)
unfolding template
standard_requirements env (str version) =
    elim (env.query (
      "MATCH (e:Entity {id: "
      <+> (template (num (pos (env.int_id version)))
          <+> "}) RETURN e.data_json AS data LIMIT 1"))) [
            | err e ↦ err e
            | ok rows ↦
                if truthy (first_data rows)
                then parsed_requirements (env.parse (template (first_data rows)))
                else ok []
          ]
standard_requirements env version = err "TypeError"

-- `versionId ? await standardRequirements(versionId) : []`
unfoldable pub requirements_of : Env → Value → Outcome String (List Value)
unfolding standard_requirements
requirements_of env version = if truthy version then standard_requirements env version else ok []

-- The order of `sort()`: by text, with `undefined` at the end.
abbrev sorts_before : Value → Value → Bool
sorts_before undefined w = false
sorts_before v undefined = true
sorts_before v w = less (codes (template v)) (codes (template w))

abbrev sort_in : Value → List Value → List Value
sort_in v [] = v ∷ []
sort_in v (w ∷ ws) = if sorts_before w v then w ∷ sort_in v ws else v ∷ w ∷ ws

abbrev sorted : List Value → List Value
sorted [] = []
sorted (v ∷ vs) = sort_in v (sorted vs)

abbrev is_info : Value → Bool
is_info (str s) = s == "info"
is_info v = false

-- `failedIds`
unfoldable pub failed_ids : List Value → String
unfolding template join_items
failed_ids reqs =
    join_items
      (items (sorted (map (prop "id") (keep (λ r. not (is_info (prop "severity" r))) reqs))))

-- `repairKey`: one for a site, a standard and the requirements that fail.
unfoldable pub repair_key : Env → Value → Value → List Value → String
unfolding failed_ids
repair_key env site version reqs =
    slice 16
      (env.digest (template site <+> ("|" <+> (template version <+> ("|" <+> failed_ids reqs)))))

unfoldable requirement_lines : List Value → List String
unfolding template
requirement_lines [] = "- (requirement list unavailable; see standard file)" ∷ []
requirement_lines reqs =
    map (λ r. "- [" <+> (template (prop "severity" r) <+> ("] " <+> template (prop "id" r)))) reqs

unfoldable observation_lines : Dict String → List String
observation_lines [] = "- none" ∷ []
observation_lines obs = map (λ e. "- " <+> (e.0 <+> (": " <+> e.1))) obs

abbrev heading : String → String → String → String → String → List String
heading title id site standard kind =
    title ∷ "" ∷ id ∷ site ∷ standard ∷ kind ∷ "" ∷ "## Failed requirement checks" ∷ []

unfoldable expected_of : Value → List String
unfolding template
expected_of site =
    ""
    ∷ "## Expected of the repairing agent"
    ∷ "1. Locate the site repo locally (see registry/sites manifests for source.path)."
    ∷ "2. Fix the failing requirements (e.g. publish llms.txt / robots.txt, restore uptime)."
    ∷ "3. Deploy or commit per the repo convention."
    ∷ ("4. Verify: node scripts/observe-sites.mjs && node scripts/conformance.mjs (exit 0 for "
        <+> (template site <+> ")."))
    ∷ ""
    ∷ []

-- `brief`
unfoldable pub brief_of : Value → Value → Value → List Value → Dict String → String
unfolding requirement_lines observation_lines expected_of template
brief_of task site version reqs obs =
    let reason = or_nullish (prop "reason" (prop "payload" task)) (str "drift") in
    let standard = if truthy version then template version else "n/a" in
    join_lines (
      heading ("# Repair task: " <+> template (or_nullish (prop "title" task) (prop "id" task)))
        ("- Task ID: " <+> template (prop "id" task)) ("- Site: " <+> template site)
        ("- Standard: " <+> (standard <+> (" (" <+> (template reason <+> ")"))))
        ("- Kind: " <+> template (or_nullish (prop "kind" task) (str "unknown")))
      ++ (requirement_lines reqs
          ++ (""
              ∷ "## Latest observations for this site"
              ∷ (observation_lines obs ++ expected_of site))))
