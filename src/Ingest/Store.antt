-- ===== src/Ingest/Store.antt =====
-- What the ingestor of src/events/canonical-ingestor.js asks of an event store, and of JSON's
-- `stringify` and `parse`.
use finalbuilds.Prelude.{
  String, Bool, true, false, ◌≡◌, ◌≢◌, Option, none, some, [], ◌∷◌, ◌==◌, if◌then◌else◌,
}
use finalbuilds.Prelude.Dict.{lookup}
use finalbuilds.Model.Value.{
  Value, Items, Fields, Document, undefined, null, bool, num, str, arr, obj, nil, cons, end, field,
  get, text?,
}

abbrev pub has_field : String → Fields → Bool
has_field k end = false
has_field k (field j v fs) = if j == k then true else has_field k fs

-- The value is one that JSON text can hold: no `undefined`, no name twice in an object.
abbrev mutual
  pub IsJson : Value → Type 0
  IsJson undefined = ⊥
  IsJson null = Unit
  IsJson (bool b) = Unit
  IsJson (num n) = Unit
  IsJson (str s) = Unit
  IsJson (arr xs) = AreJson xs
  IsJson (obj fs) = HasJson fs

  pub AreJson : Items → Type 0
  AreJson nil = Unit
  AreJson (cons v xs) = IsJson v × AreJson xs

  pub HasJson : Fields → Type 0
  HasJson end = Unit
  HasJson (field k v fs) = IsJson v × (has_field k fs ≡ false) × HasJson fs

-- An object as `JSON.parse` gives it.
abbrev pub IsJsonDocument : Document → Type 0
IsJsonDocument [] = Unit
IsJsonDocument ((k, v) ∷ d) = IsJson v × (lookup k d ≡ none) × IsJsonDocument d

-- `JSON.stringify` and `JSON.parse` on objects; `none` is a SyntaxError. Parsing gives back what
-- was written.
pub record Json : Type 0 where
  pub stringify : Document → String
  pub parse : String → Option Document
  pub parse-stringify : (d : Document) → IsJsonDocument d → parse (stringify d) ≡ some d
  pub stringify_nonempty : (d : Document) → stringify d ≢ ""

-- The envelope's id, which the envelope's validation has found to be a text.
abbrev pub id_text : Document → Option String
id_text event = text? (get "event_id" event)

-- An event store: `getById` may throw (`none`). On a store that is valid it does not, an append of
-- an event whose id is new keeps the store valid and adds exactly that event.
pub record EventStore : Type 1 where
  pub State : Type 0
  pub get_by_id : String → State → Option (Option Document)
  pub append_envelope : Document → State → State
  pub IsValid : State → Type 0
  pub get_by_id-total :
      (id : String) (s : State)
      → IsValid s
      → (found : Option Document) × (get_by_id id s ≡ some found)
  pub append-IsValid :
      (id : String) (event : Document) (s : State)
      → IsValid s
      → IsJsonDocument event
      → id_text event ≡ some id
      → get_by_id id s ≡ some none
      → IsValid (append_envelope event s)
  pub append-self :
      (id : String) (event : Document) (s : State)
      → IsValid s
      → IsJsonDocument event
      → id_text event ≡ some id
      → get_by_id id s ≡ some none
      → get_by_id id (append_envelope event s) ≡ some (some event)
  pub append-other :
      (id other : String) (event : Document) (s : State)
      → IsValid s
      → IsJsonDocument event
      → id_text event ≡ some id
      → id ≢ other
      → get_by_id other (append_envelope event s) ≡ get_by_id other s
