-- ===== src/Builds/Receipt.antt =====
-- `createBuildReceipt` (src/receipt/receipt-v2.js). The digest and the clock come from outside.
use mathlib.Core.Option.{none-ne-some, some-injective}
use finalbuilds.Prelude.{
  zero, String, Bool, true, false, ◌&&◌, Option, none, some, List, [], ◌∷◌, ◌≡◌, refl, sym, ap, ◌∙◌,
  ◌↔◌, map, All, if◌then◌else◌, arith,
}
use finalbuilds.Prelude.Int.{pos}
use finalbuilds.Model.Value.{
  Value, Document, null, bool, num, str, arr, obj, nil, get, prop, truthy, or_falsy, fields,
}

-- The parameter object.
pub record Inputs : Type 0 where
  pub run_id : Value
  pub idea : Value
  pub blueprint : Value
  pub execution : Value
  pub verification : Value
  pub storage : Value
  pub artifact_sha256 : Value
  pub challenge : Value
  pub hydra_stats : Value

-- `v === true`, `v === 0`
abbrev pub is_true : Value → Bool
is_true (bool b) = b
is_true v = false

abbrev is_zero : Value → Bool
is_zero (num (pos n)) = elim n [ zero ↦ true | _ ↦ false ]
is_zero v = false

abbrev pub gate_names : List String
gate_names =
    "source_ok" ∷ "tests_ok" ∷ "build_ok" ∷ "runtime_ok" ∷ "user_journey_ok" ∷ "artifact_rebuild_ok"
    ∷ "foundry_proof_ok" ∷ []

-- `gates`
abbrev pub gates : Value → Document
gates verification = map (λ k. (k, bool (is_true (prop k verification)))) gate_names

-- `Object.values(gates).every(Boolean)`
abbrev pub every_gate : Document → Bool
every_gate [] = true
every_gate ((k, v) ∷ d) = truthy v && every_gate d

abbrev or_null : Value → Value
or_null v = or_falsy v null

abbrev or_zero : Value → Value
or_zero v = or_falsy v (num (pos 0))

abbrev section : Document → Value
section d = obj (fields d)

-- `blueprint ? sha256(blueprint) : null`; a digest takes texts only.
abbrev blueprint_digest : (String → String) → Value → Option Value
blueprint_digest digest (str s) = some (if truthy (str s) then str (digest s) else null)
blueprint_digest digest v = if truthy v then none else some null

abbrev source_section : Inputs → Value → Value
source_section i sha = section (
    ("idea_id", or_null (prop "idea_id" i.idea))
    ∷ ("idea_name", or_falsy (prop "name" i.idea) (or_null (prop "key" i.idea)))
    ∷ ("source_repo", or_null (prop "source_repo" i.idea))
    ∷ ("source_file", or_null (prop "source_file" i.idea))
    ∷ ("blueprint_sha256", sha)
    ∷ [])

abbrev software_section : Value
software_section = section (
    ("finalbuilds_commit", null)
    ∷ ("builda_commit", null)
    ∷ ("hydra_version", null)
    ∷ ("contract_version", str "1.0.0")
    ∷ [])

abbrev execution_section : Value → Value
execution_section execution = section (
    ("model", or_null (prop "model" execution))
    ∷ ("provider", or_null (prop "provider" execution))
    ∷ ("provider_request_ids", or_falsy (prop "request_ids" execution) (arr nil))
    ∷ ("input_tokens", or_zero (prop "input_tokens" execution))
    ∷ ("output_tokens", or_zero (prop "output_tokens" execution))
    ∷ ("duration_ms", or_zero (prop "duration_ms" execution))
    ∷ ("attempts", or_zero (prop "attempts" execution))
    ∷ ("repair_loops", or_zero (prop "repair_loops" execution))
    ∷ ("sandbox_restarts", or_zero (prop "sandbox_restarts" execution))
    ∷ [])

abbrev storage_section : Value → Value
storage_section storage = section (
    ("events_persisted", or_zero (prop "events_persisted" storage))
    ∷ ("hydra_projected", or_zero (prop "hydra_projected" storage))
    ∷ ("hydra_failed", or_zero (prop "hydra_failed" storage))
    ∷ ("fallback_projected", or_zero (prop "fallback_projected" storage))
    ∷ [])

abbrev receipt_of : String → Inputs → Value → Document
receipt_of now i sha =
    ("schema_version", str "2.0.0")
    ∷ ("run_id", i.run_id)
    ∷ ("created_at", str now)
    ∷ ("source", source_section i sha)
    ∷ ("software", software_section)
    ∷ ("execution", execution_section i.execution)
    ∷ ("verification", section (gates i.verification))
    ∷ ("storage", storage_section i.storage)
    ∷ (
      "artifact",
      section (
          ("sha256", or_null i.artifact_sha256)
          ∷ ("workspace_path", or_null (prop "workspace_path" i.execution))
          ∷ []),
    )
    ∷ (
      "challenge",
      section (
          ("id", or_null i.challenge)
          ∷ ("verified", bool (is_true (prop "foundry_proof_ok" i.verification)))
          ∷ []),
    )
    ∷ (
      "hydra",
      section (
          ("stats", or_null i.hydra_stats)
          ∷ ("fallback_zero", bool (is_zero (prop "fallback" i.hydra_stats)))
          ∷ []),
    )
    ∷ ("passed", bool (every_gate (gates i.verification)))
    ∷ []

-- `createBuildReceipt(inputs)`; `none` is the TypeError of a blueprint that cannot be hashed.
unfoldable pub create_build_receipt : (String → String) → String → Inputs → Option Document
create_build_receipt digest now i = elim (blueprint_digest digest i.blueprint) [
  | none ↦ none
  | some sha ↦ some (receipt_of now i sha)
]

every_gate_iff :
    (v : Value) (ks : List String)
    → (every_gate (map (λ k. (k, bool (is_true (prop k v)))) ks) ≡ true)
      ↔ All (λ k. is_true (prop k v) ≡ true) ks
every_gate_iff v [] = ((λ h. tt), λ h. refl)
every_gate_iff v (k ∷ ks) =
    let rest = every_gate_iff v ks in
    ((λ h. (ground (arith, h), rest.0 (ground (arith, h)))), λ h. ground (arith, h.0, rest.1 h.1))

-- A receipt that is made has passed exactly when each of the seven gates of the verification is the
-- value `true`, and its challenge is verified exactly when the gate of the proof is.
pub receipt_passed_iff :
    (digest : String → String) (now : String) (i : Inputs) (d : Document)
    → create_build_receipt digest now i ≡ some d
    → ((get "passed" d ≡ bool true) ↔ All (λ k. is_true (prop k i.verification) ≡ true) gate_names)
      × (prop "verified" (get "challenge" d) ≡ prop "foundry_proof_ok" (get "verification" d))
unfolding create_build_receipt
receipt_passed_iff digest now i d = go (blueprint_digest digest i.blueprint)
  where
    go :
        (o : Option Value)
        → ◌≡◌ {A = Option Document}
            (elim o [ none ↦ none | some sha ↦ some (receipt_of now i sha) ])
            (some d)
        → ((get "passed" d ≡ bool true)
            ↔ All (λ k. is_true (prop k i.verification) ≡ true) gate_names)
          × (prop "verified" (get "challenge" d) ≡ prop "foundry_proof_ok" (get "verification" d))
    go none e = absurd (none-ne-some d e)
    go (some sha) e =
        let same = some-injective (receipt_of now i sha) d e in
        let every = every_gate_iff i.verification gate_names in
        (
          (
            (λ h. every.0 (ap is_true (ap (get "passed") same ∙ h))),
            λ h. ap (get "passed") (sym same) ∙ ap bool (every.1 h),
          ),
          ap (λ r. prop "verified" (get "challenge" r)) (sym same)
              ∙ ap (λ r. prop "foundry_proof_ok" (get "verification" r)) same,
        )
