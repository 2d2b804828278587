-- ===== src/Ingest/Jsonl.antt =====
-- `JsonlEventStore` (src/event/jsonl-store.js) as the ingestor's event store: the file's lines. The
-- directory lock round an append is not modelled: an append adds its line whole.
use mathlib.Core.Option.{some-injective, none-ne-some, some-ne-none}
use finalbuilds.Prelude.{
  String, Bool, true, false, ◌≡◌, ◌≢◌, refl, sym, ap, ◌∙◌, inl, inr, Option, none, some, List, [],
  ◌∷◌, ◌++◌, ◌==◌, eq-cases, eq_refl, Bool-cases, if◌then◌else◌,
}
use finalbuilds.Model.Value.{Value, Document, undefined, null, bool, num, str, arr, obj, get, text?}
use finalbuilds.Contract.Validate.{is_text}
use finalbuilds.Ingest.Store.{EventStore, Json, IsJsonDocument, id_text}

-- `events.find(e => e.event_id === eventId) || null`
unfoldable pub find_event : String → List Document → Option Document
find_event id [] = none
find_event id (e ∷ events) = if is_text (get "event_id" e) id then some e else find_event id events

is_text-text : (v : Value) (id other : String) → text? v ≡ some id → is_text v other ≡ (id == other)
is_text-text (str s) id other e = ap (λ x. x == other) (some-injective _ _ e)
is_text-text undefined id other e = absurd (none-ne-some id e)
is_text-text null id other e = absurd (none-ne-some id e)
is_text-text (bool b) id other e = absurd (none-ne-some id e)
is_text-text (num n) id other e = absurd (none-ne-some id e)
is_text-text (arr xs) id other e = absurd (none-ne-some id e)
is_text-text (obj fs) id other e = absurd (none-ne-some id e)

pub find-append :
    (id : String) (event : Document) (events : List Document)
    → id_text event ≡ some id
    → find_event id events ≡ none
    → find_event id (events ++ (event ∷ [])) ≡ some event
unfolding find_event
find-append id event [] names none_there =
    rw (is_text-text (get "event_id" event) id id names, eq_refl id)
find-append id event (e ∷ events) names none_there =
    elim (Bool-cases (is_text (get "event_id" e) id)) [
      | inl here ↦ absurd (some-ne-none e (sym (rw (here)) ∙ none_there))
      | inr apart ↦ rw (apart) (find-append id event events names (sym (rw (apart)) ∙ none_there))
    ]

pub find-append_other :
    (id other : String) (event : Document) (events : List Document)
    → id_text event ≡ some id
    → id ≢ other
    → find_event other (events ++ (event ∷ [])) ≡ find_event other events
unfolding find_event
find-append_other id other event [] names differ = elim (eq-cases id other) [
  | inl same ↦ absurd (differ same.0)
  | inr apart ↦ rw (is_text-text (get "event_id" event) id other names, apart.1)
]
find-append_other id other event (e ∷ events) names differ =
    ap (λ x. if is_text (get "event_id" e) other then some e else x)
      (find-append_other id other event events names differ)

module _ (json : Json) where
  open json use {stringify, parse, parse-stringify, stringify_nonempty}

  -- `all()`: the empty lines are left out, and a line that is no JSON throws.
  unfoldable pub all : List String → Option (List Document)
  all [] = some []
  all (line ∷ lines) =
      let rest = all lines in
      if line == "" then rest else elim (parse line) [
        | none ↦ none
        | some e ↦ elim rest [ none ↦ none | some events ↦ some (e ∷ events) ]
      ]

  -- `reset()`
  abbrev pub reset : List String → List String
  reset lines = []

  -- `getById(eventId)`
  unfoldable pub get_by_id : String → List String → Option (Option Document)
  unfolding all find_event
  get_by_id id lines = elim (all lines) [ none ↦ none | some events ↦ some (find_event id events) ]

  -- `appendEnvelope(event)`
  unfoldable pub append_envelope : Document → List String → List String
  append_envelope event lines = lines ++ (stringify event ∷ [])

  -- Every line can be read.
  abbrev pub IsReadable : List String → Type 0
  IsReadable lines = (events : List Document) × (all lines ≡ some events)

  abbrev pub extend : Document → Option (List Document) → Option (List Document)
  extend event none = none
  extend event (some events) = some (events ++ (event ∷ []))

  pub all-append :
      (event : Document) (lines : List String)
      → IsJsonDocument event
      → all (append_envelope event lines) ≡ extend event (all lines)
  unfolding all append_envelope
  all-append event [] is_json = elim (eq-cases (stringify event) "") [
    | inl empty ↦ absurd (stringify_nonempty event empty.0)
    | inr full ↦ rw (full.1, parse-stringify event is_json)
  ]
  all-append event (line ∷ lines) is_json =
      by_line (line == "") (parse line) (all lines) (all-append event lines is_json)
    where
      read : Option Document → Option (List Document) → Option (List Document)
      read p rest = elim p [
        | none ↦ none
        | some e ↦ elim rest [ none ↦ none | some events ↦ some (e ∷ events) ]
      ]

      by_line :
          (b : Bool) (p : Option Document) (rest : Option (List Document))
          → all (append_envelope event lines) ≡ extend event rest
          → (if b
              then all (append_envelope event lines)
              else read p (all (append_envelope event lines)))
            ≡ extend event (if b then rest else read p rest)
      by_line true p rest e = e
      by_line false none rest e = refl
      by_line false (some d) none e = rw (e)
      by_line false (some d) (some events) e = rw (e)

  pub get_by_id-all :
      (id : String) (lines : List String) (events : List Document)
      → all lines ≡ some events
      → get_by_id id lines ≡ some (find_event id events)
  unfolding get_by_id
  get_by_id-all id lines events e = rw (get_by_id, e)

  pub get_by_id_absent :
      (id : String) (lines : List String) (events : List Document)
      → all lines ≡ some events
      → get_by_id id lines ≡ some none
      → find_event id events ≡ none
  get_by_id_absent id lines events e absent =
      some-injective _ _ (sym (get_by_id-all id lines events e) ∙ absent)

  -- The file as an event store that the ingestor can be given.
  unfoldable pub jsonl_store : EventStore
  jsonl_store = record {
    State = List String;
    get_by_id = get_by_id;
    append_envelope = append_envelope;
    IsValid = IsReadable;
    get_by_id-total = λ id lines readable.
        (find_event id readable.0, get_by_id-all id lines readable.0 readable.1);
    append-IsValid = λ id event lines readable is_json names absent.
        (readable.0 ++ (event ∷ []), all-append event lines is_json ∙ ap (extend event) readable.1);
    append-self = λ id event lines readable is_json names absent.
        get_by_id-all id (append_envelope event lines) (readable.0 ++ (event ∷ []))
          (all-append event lines is_json ∙ ap (extend event) readable.1)
        ∙ ap some (
            find-append id event readable.0 names
              (get_by_id_absent id lines readable.0 readable.1 absent));
    append-other = λ id other event lines readable is_json names differ.
        get_by_id-all other (append_envelope event lines) (readable.0 ++ (event ∷ []))
          (all-append event lines is_json ∙ ap (extend event) readable.1)
        ∙ (ap some (find-append_other id other event readable.0 names differ)
            ∙ sym (get_by_id-all other lines readable.0 readable.1));
  }
