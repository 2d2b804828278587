-- ===== src/Contract/Create.antt =====
-- `generateId` and `createEvent` (contracts/index.js). Random bytes, the clock and the hash of the
-- payload come from outside.
use text.Mathlib.TextLemmas.{cons-append, cons≢nil}
use mathlib.Core.Bool.{false≢true}
use finalbuilds.Prelude.{
  String, true, false, not, ◌≡◌, sym, ap, ◌∙◌, Option, none, some, [], ◌∷◌, ◌==◌, eq_iff, eq-cases,
  Bool-cases, inl, inr, if◌then◌else◌,
}
use finalbuilds.Prelude.Text.{includes, ◌<+>◌}
use finalbuilds.Model.Value.{
  Value, Document, Items, null, str, arr, obj, fields, end, get, truthy, or_falsy,
}
use finalbuilds.Contract.Names.{contract_version, event_types}
use finalbuilds.Contract.Validate.{validate_event, is_object, is_system}

-- What the environment answers to one creation: the hex of the random bytes, and the time.
pub record Draw : Type 0 where
  pub hex : String
  pub now : String

unfoldable pub generate_id : String → String → String
generate_id prefix hex = prefix <+> ("_" <+> hex)

-- An `or` with a default of the caller's options.
abbrev option_or : String → Value → Document → Value
option_or k v options = or_falsy (get k options) v

unfoldable pub source_of : Document → Value
source_of source = obj (
    fields (
      ("system", get "system" source)
      ∷ ("version", option_or "version" (str "0.0.0") source)
      ∷ ("repo", option_or "repo" null source)
      ∷ ("commit_sha", option_or "commit_sha" null source)
      ∷ []))

unfoldable pub envelope :
    (Value → String) → Draw → String → Document → Document → Value → Document → Document
unfolding generate_id source_of
envelope hash draw type source subject payload options =
    ("event_id", str (generate_id "evt" draw.hex))
    ∷ ("event_type", str type)
    ∷ ("schema_version", str contract_version)
    ∷ ("occurred_at", option_or "occurred_at" (str draw.now) options)
    ∷ ("recorded_at", str draw.now)
    ∷ ("source", source_of source)
    ∷ ("subject", obj (fields (("type", get "type" subject) ∷ ("id", get "id" subject) ∷ [])))
    ∷ ("context", option_or "context" (obj end) options)
    ∷ ("payload", payload)
    ∷ ("artifact_refs", option_or "artifact_refs" (arr Items.nil) options)
    ∷ ("causation_id", option_or "causation_id" null options)
    ∷ ("correlation_id", option_or "correlation_id" null options)
    ∷ (
      "integrity",
      obj (
          fields (
            ("payload_sha256", str (hash payload))
            ∷ ("previous_event_id", option_or "previous_event_id" null options)
            ∷ [])),
    )
    ∷ []

-- `none` is the Error of an unknown event type.
unfoldable pub create_event :
    (Value → String) → Draw → String → Document → Document → Value → Document → Option Document
create_event hash draw type source subject payload options =
    if includes event_types type
    then some (envelope hash draw type source subject payload options)
    else none

prefix_ne : (hex : String) → (generate_id "evt" hex == "") ≡ false
unfolding generate_id
prefix_ne hex = elim (Bool-cases ("evt" <+> ("_" <+> hex) == "")) [
  | inl e ↦ absurd (cons≢nil (sym (cons-append "e" "vt" ("_" <+> hex)) ∙ (eq_iff _ "").0 e))
  | inr e ↦ e
]

listed-ne : (type : String) → includes event_types type ≡ true → (type == "") ≡ false
listed-ne type listed = elim (eq-cases type "") [
  | inl same ↦ absurd (false≢true (rw same.0 at listed))
  | inr differ ↦ differ.1
]

truthy-or_falsy : (v w : Value) → truthy w ≡ true → truthy (or_falsy v w) ≡ true
truthy-or_falsy v w h = elim (Bool-cases (truthy v)) [ inl e ↦ rw (e) e | inr e ↦ rw e h ]

-- What `createEvent` makes of a listed type, a text that names a known system, a subject with a type
-- and an id, and an object for a payload, at a time that is not empty, `validateEvent` accepts.
pub create_event-valid :
    (hash : Value → String) (draw : Draw) (type : String) (source subject : Document)
    (payload : Value) (options : Document) (system : String)
    → includes event_types type ≡ true
    → (draw.now == "") ≡ false
    → get "system" source ≡ str system
    → (system == "") ≡ false
    → is_system system ≡ true
    → truthy (get "type" subject) ≡ true
    → truthy (get "id" subject) ≡ true
    → truthy payload ≡ true
    → is_object payload ≡ true
    → (event : Document) × (create_event hash draw type source subject payload options ≡ some event)
      × (validate_event event ≡ some [])
unfolding create_event envelope validate_event source_of
create_event-valid hash draw type source subject payload options system listed timed names named
      known hs hi hp ho =
    (
      envelope hash draw type source subject payload options,
      rw (create_event, listed),
      rw (
        validate_event,
        names,
        named,
        known,
        prefix_ne draw.hex,
        listed-ne type listed,
        listed,
        timed,
        truthy-or_falsy (get "occurred_at" options) (str draw.now) (ap not timed),
        hs,
        hi,
        hp,
        ho,
      ),
    )
