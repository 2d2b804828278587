-- ===== src/Contract/Tests.antt =====
-- Concrete envelopes and messages for the contract, and its theorems at them.
use finalbuilds.Prelude.{◌≡◌, refl, some, [], ◌∷◌}
use finalbuilds.Contract.Letters.{lower}
use finalbuilds.Model.Value.{Value, Document, str, obj, end, field}
use finalbuilds.Contract.Validate.{validate_event, is_system}
use finalbuilds.Contract.Classify.{class_rules, classify_failure}
use finalbuilds.Contract.Create.{Draw, create_event, create_event-valid}

abbrev draw : Draw
draw = record { hex = "00ff"; now = "2026-01-01T00:00:00.000Z" }

abbrev source : Document
source = ("system", str "finalbuilds2") ∷ []

abbrev subject : Document
subject = ("type", str "build") ∷ ("id", str "b") ∷ []

abbrev payload : Value
payload = obj (field "n" (str "1") end)

create_event-valid_example :
    (event : Document) × (create_event
        (λ v. "hash")
        draw
        "build.completed"
        source
        subject
        payload
        []
      ≡ some event)
    × (validate_event event ≡ some [])
unfolding is_system
create_event-valid_example =
    create_event-valid (λ v. "hash") draw "build.completed" source subject payload [] "finalbuilds2"
      refl refl refl refl refl refl refl refl refl

class_test : classify_failure "Install FAILED" ≡ "DEPENDENCY_INSTALL_FAILED"
unfolding classify_failure class_rules lower
class_test = refl
