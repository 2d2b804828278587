-- ===== src/Event/R2.antt =====
-- The keys of R2EventStore and the files of LocalR2Fallback (src/event/r2-store.js). The parts of a date
-- and JSON come from outside.
use finalbuilds.Prelude.{ℕ, String, Option, none, some, ltb, if◌then◌else◌}
use finalbuilds.Prelude.Text.{◌<+>◌}
use finalbuilds.Prelude.Paths.{join}
use finalbuilds.Prelude.Dict.{Dict, lookup, insert}
use finalbuilds.Model.Value.{Value, Document, str, get, prop, truthy, or_falsy}
use finalbuilds.Model.Template.{template, decimal}

-- `String(n).padStart(2, '0')`
unfoldable padded : ℕ → String
unfolding decimal
padded n = if ltb n 10 then "0" <+> decimal n else decimal n

-- `_eventKey(event)` of R2EventStore, with the year, the month from 1 and the day of a date.
unfoldable pub event_key : String → (Value → ℕ × ℕ × ℕ) → Document → String
unfolding template decimal padded
event_key prefix utc event =
    let (year, month, day) = utc (get "occurred_at" event) in
    let source = or_falsy (prop "system" (get "source" event)) (str "unknown") in
    prefix
    <+> ("events/year="
        <+> (decimal year
            <+> ("/month="
                <+> (padded month
                    <+> ("/day="
                        <+> (padded day
                            <+> ("/source="
                                <+> (template source
                                    <+> ("/"
                                        <+> (template (get "event_id" event) <+> ".json"))))))))))

-- The prefix that `scan({ source })` of R2EventStore lists.
unfoldable pub scan_prefix : String → Value → String
unfolding template
scan_prefix prefix source =
    prefix
    <+> ("events/" <+> (if truthy source then "source=" <+> (template source <+> "/") else ""))

-- `JSON.stringify(event, null, 2)` and `JSON.parse`; `none` is a SyntaxError.
pub record Printer : Type 0 where
  pub stringify : Document → String
  pub parse : String → Option Document

-- The files below a base directory.
abbrev pub Files : Type 0
Files = Dict String

module _ (json : Printer) (base : String) where
  -- `path.join(this.baseDir, 'events', `${id}.json`)`
  unfoldable pub file_of : String → String
  unfolding join
  file_of id = join base ("events/" <+> (id <+> ".json"))

  -- `_eventKey(event)` of LocalR2Fallback
  unfoldable pub local_key : Document → String
  unfolding template file_of
  local_key event =
      file_of
        (template (or_falsy (get "event_id" event) (or_falsy (get "id" event) (str "unknown"))))

  -- `append(event)`: the key, without the file's size, and the files.
  unfoldable pub append : Document → Files → String × Files
  unfolding local_key
  append event files = (local_key event, insert (local_key event) (json.stringify event) files)

  abbrev pub read_event : Option String → Option (Option Document)
  read_event none = some none
  read_event (some text) = elim (json.parse text) [ none ↦ none | some event ↦ some (some event) ]

  -- `get(eventId)`, `getById(eventId)`: `none` is a SyntaxError.
  unfoldable pub get_by_id : String → Files → Option (Option Document)
  unfolding file_of
  get_by_id id files = read_event (lookup (file_of id) files)
