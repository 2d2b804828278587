-- ===== src/Contract/Validate.antt =====
-- `validateEvent` (contracts/index.js). An event is a JSON object; the one fault on the way, a
-- system that is truthy and no text, throws where it is upper-cased.
use finalbuilds.Prelude.{
  String, Bool, true, false, not, ◌||◌, ◌≡◌, refl, Option, none, some, List, [], ◌∷◌, ◌++◌, map,
  ◌==◌, if◌then◌else◌, any, inl, In, In-append_right,
}
use finalbuilds.Prelude.Text.{includes, ◌<+>◌}
use finalbuilds.Model.Value.{Value, Document, null, str, arr, obj, get, prop, truthy}
use finalbuilds.Model.Template.{template}
use finalbuilds.Contract.Letters.{codes, upper, underscored, same_codes}
use finalbuilds.Contract.Names.{contract_version, system_keys, event_types}

-- `v === s`
abbrev pub is_text : Value → String → Bool
is_text (str t) s = t == s
is_text v s = false

-- `typeof v === 'string'`
abbrev pub is_string : Value → Bool
is_string (str s) = true
is_string v = false

-- `typeof v === 'object'`
abbrev pub is_object : Value → Bool
is_object null = true
is_object (arr xs) = true
is_object (obj fs) = true
is_object v = false

-- `xs.includes(v)`
abbrev pub includes_value : List String → Value → Bool
includes_value xs (str s) = includes xs s
includes_value xs v = false

-- `!!SYSTEMS[s.toUpperCase().replace(/-/g, '_')]`
unfoldable pub is_system : String → Bool
unfolding upper underscored
is_system s =
    let key = map (λ c. underscored (upper c)) (codes s) in
    any (λ known. same_codes key (codes known)) system_keys

-- The test of the source's system: `none` is the TypeError.
abbrev pub bad_system : Value → Option Bool
bad_system (str s) = some (s == "" || not (is_system s))
bad_system v = if truthy v then none else some true

-- `if (b) errors.push(message)`
abbrev pub error_if : Bool → String → List String
error_if true message = message ∷ []
error_if false message = []

abbrev system_of : Document → Value
system_of e = prop "system" (get "source" e)

abbrev errors_before : Document → List String
errors_before e =
    error_if (not (truthy (get "event_id" e)) || not (is_string (get "event_id" e)))
      "missing event_id"
    ++ (error_if
          (not (truthy (get "event_type" e))
            || not (includes_value event_types (get "event_type" e)))
          ("invalid event_type: " <+> template (get "event_type" e))
        ++ (error_if (not (is_text (get "schema_version" e) contract_version)) (
              "schema_version mismatch: "
              <+> (template (get "schema_version" e) <+> (" != " <+> contract_version)))
            ++ (error_if (not (truthy (get "occurred_at" e))) "missing occurred_at"
                ++ error_if (not (truthy (get "recorded_at" e))) "missing recorded_at")))

abbrev errors_after : Document → List String
errors_after e =
    error_if
      (not (truthy (prop "type" (get "subject" e))) || not (truthy (prop "id" (get "subject" e))))
      "missing subject.type or subject.id"
    ++ error_if (not (truthy (get "payload" e)) || not (is_object (get "payload" e)))
        "missing payload"

-- The errors of an envelope, in the source's order; it is valid when there are none.
unfoldable pub validate_event : Document → Option (List String)
validate_event e = elim (bad_system (system_of e)) [
  | none ↦ none
  | some bad ↦ some (
      errors_before e
      ++ (error_if bad ("invalid source.system: " <+> template (system_of e)) ++ errors_after e))
]

-- An envelope whose system is a text that names no known system has an error that says so.
pub validate_event_unknown :
    (e : Document) (system : String)
    → prop "system" (get "source" e) ≡ str system
    → is_system system ≡ false
    → (errors : List String) × (validate_event e ≡ some errors)
      × In ("invalid source.system: " <+> system) errors
unfolding validate_event template
validate_event_unknown e system named unknown = (
  errors_before e ++ (("invalid source.system: " <+> system) ∷ errors_after e),
  by_test (system == "") refl,
  In-append_right ("invalid source.system: " <+> system) (errors_before e) (_ ∷ errors_after e)
      (inl refl),
)
  where
    by_test :
        (b : Bool)
        → (system == "") ≡ b
        → validate_event e
          ≡ some (errors_before e ++ (("invalid source.system: " <+> system) ∷ errors_after e))
    by_test true h = rw (validate_event, named, h, system_of, named)
    by_test false h = rw (validate_event, named, h, unknown, system_of, named)
