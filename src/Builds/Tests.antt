-- ===== src/Builds/Tests.antt =====
-- Blueprints and receipts of small builds.
use finalbuilds.Prelude.{
  String, true, [], ◌∷◌, ◌≡◌, refl, Option, none, some, ◌↔◌, All, length, map,
}
use finalbuilds.Prelude.Text.{◌<+>◌}
use finalbuilds.Model.Value.{Value, Document, obj, str, bool, null, undefined, fields, get, prop}
use finalbuilds.Builds.Blueprint.{blueprint_sections}
use finalbuilds.Builds.Compiler.{compile_blueprint, compile_blueprint_proof, proof_of, given_or}
use finalbuilds.Builds.Agent.{AgentBuild, dispatch, record_receipt}
use finalbuilds.Builds.Receipt.{
  Inputs, create_build_receipt, receipt_passed_iff, is_true, gate_names,
}

abbrev idea : Value
idea = obj (fields (("name", str "Fetch") ∷ ("interfaces", str "rest") ∷ []))

abbrev options : Value
options = obj (fields (("challenge", str "c0ffee") ∷ ("buildId", str "build_1") ∷ []))

abbrev text_of : Option String → String
text_of none = ""
text_of (some s) = s

abbrev compiled : String
compiled = text_of (compile_blueprint idea null options "r" "s")

compiled_is : compile_blueprint idea null options "r" "s" ≡ some compiled
unfolding compile_blueprint
compiled_is = refl

compile_blueprint_proof_example :
    (before : String) × (after : String) × (compiled
      ≡ before <+> (proof_of (given_or (str "c0ffee") "r") <+> after))
compile_blueprint_proof_example =
    compile_blueprint_proof idea null options "r" "s" compiled compiled_is

section_test : length (blueprint_sections idea undefined (str "Reuse.")) ≡ 26
unfolding blueprint_sections
section_test = refl

abbrev all_gates : Value
all_gates = obj (fields (map (λ k. (k, bool true)) gate_names))

abbrev inputs : Inputs
inputs = record {
  run_id = str "run_1";
  idea = idea;
  blueprint = str "text";
  execution = undefined;
  verification = all_gates;
  storage = undefined;
  artifact_sha256 = undefined;
  challenge = str "c0ffee";
  hydra_stats = undefined;
}

abbrev document_of : Option Document → Document
document_of none = []
document_of (some d) = d

abbrev receipt : Document
receipt = document_of (create_build_receipt (λ s. s) "now" inputs)

receipt_is : create_build_receipt (λ s. s) "now" inputs ≡ some receipt
unfolding create_build_receipt
receipt_is = refl

passed_test : get "passed" receipt ≡ bool true
unfolding create_build_receipt
passed_test = refl

receipt_passed_iff_example :
    ((get "passed" receipt ≡ bool true) ↔ All (λ k. is_true (prop k all_gates) ≡ true) gate_names)
    × (prop "verified" (get "challenge" receipt)
        ≡ prop "foundry_proof_ok" (get "verification" receipt))
receipt_passed_iff_example = receipt_passed_iff (λ s. s) "now" inputs receipt receipt_is

abbrev agent : AgentBuild
agent = record {
  parse = λ s. none;
  root = "/work";
  run = λ path text. record { error = none; stdout = "done" };
}

abbrev task : Value
task = obj (fields (("id", str "task_1") ∷ ("title", str "Fetch") ∷ []))

path_test :
    map (λ e. e.0) (dispatch agent task []).1 ≡ "/work/.agentbuild/blueprints/task_1.md" ∷ []
unfolding dispatch
path_test = refl

emitted_test :
    length (
      record_receipt task
        (obj (fields (("release_passed", bool true) ∷ ("preview_url", str "u") ∷ []))))
    ≡ 2
unfolding record_receipt
emitted_test = refl
