-- ===== src/Builds/Compiler.antt =====
-- `compileBlueprint` (src/ideas/blueprint-compiler.js). The challenge and the build id that a call without
-- them makes come from outside.
use mathlib.Core.Option.{none-ne-some, some-injective}
use finalbuilds.Prelude.{
  String, Bool, true, false, not, ◌&&◌, ◌||◌, Option, none, some, List, [], ◌∷◌, ◌++◌, map, take,
  any, ◌==◌, ◌≡◌, refl, sym, ◌∙◌, inl, inr, In, In-append_right, if◌then◌else◌,
}
use finalbuilds.Prelude.Text.{◌<+>◌, join_lines, join_lines-In}
use finalbuilds.Model.Value.{Value, str, arr, prop, truthy, or_falsy, array, elements}
use finalbuilds.Model.Template.{template}
use finalbuilds.Contract.Letters.{codes, has_part}
use finalbuilds.Builds.Blueprint.{titled_if, technical_lines}

abbrev is_str : String → Value → Bool
is_str s (str t) = t == s
is_str s v = false

-- `interfaces.includes(s)`: of a text or of an array.
abbrev mentions : Value → String → Bool
mentions (str t) s = has_part (codes t) (codes s)
mentions (arr xs) s = any (is_str s) (elements xs)
mentions v s = false

-- Only texts and arrays have `includes`.
abbrev can_mention : Value → Bool
can_mention (str t) = true
can_mention (arr xs) = true
can_mention v = false

abbrev line_if : Bool → String → List String
line_if b line = if b then line ∷ [] else []

unfoldable interface_lines : Value → List String
interface_lines v =
    "## Interfaces"
    ∷ ""
    ∷ (line_if (mentions v "rest" || mentions v "API") "- REST API endpoint"
        ++ (line_if (mentions v "mcp" || mentions v "MCP") "- MCP tool"
            ++ (line_if (mentions v "web" || mentions v "HTML") "- Human-readable web page"
                ++ (line_if (mentions v "worker") "- Cloudflare Worker"
                    ++ ((if not (mentions v "rest")
                            && (not (mentions v "mcp") && not (mentions v "web"))
                          then "- REST API" ∷ "- Web interface" ∷ []
                          else [])
                        ++ ("" ∷ []))))))

-- `none` is a TypeError.
unfoldable interface_section : Value → Option (List String)
unfolding interface_lines
interface_section v =
    if truthy v then (if can_mention v then some (interface_lines v) else none) else some []

unfoldable failure_line : Value → String
unfolding template
failure_line f =
    "- "
    <+> (template (prop "failure_class" f)
        <+> (": occurred " <+> (template (prop "occurrence_count" f) <+> " times")))

abbrev failure_section : List Value → List String
failure_section [] = []
failure_section failures =
    "## Known failure patterns to avoid" ∷ "" ∷ (map failure_line (take 3 failures) ++ ("" ∷ []))

unfoldable strategy_section : Value → List String
unfolding template
strategy_section v = titled_if v "## Recommended strategy" (
    "Use approach proven by strategy version "
    <+> template (or_falsy (prop "version" v) (str "unknown")))

-- What the built app has to answer.
abbrev pub proof_of : String → String
proof_of challenge = "The response must be: {\"challenge\": \"" <+> (challenge <+> "\"}")

abbrev challenge_lines : String → List String
challenge_lines challenge =
    "## Verification challenge"
    ∷ ""
    ∷ "Expose the build challenge from GET /_foundry-proof"
    ∷ proof_of challenge
    ∷ "This proves the app was built for this specific run."
    ∷ ""
    ∷ []

abbrev acceptance_lines : String → List String
acceptance_lines challenge =
    "## Acceptance criteria"
    ∷ ""
    ∷ "1. The app builds without errors"
    ∷ "2. The preview URL serves a working page"
    ∷ "3. Core functionality is implemented (not just a shell)"
    ∷ ("4. GET /_foundry-proof returns {\"challenge\": \"" <+> (challenge <+> "\"}"))
    ∷ "5. At least one test passes"
    ∷ ""
    ∷ []

-- The lines before the interfaces.
unfoldable opening_lines : Value → String → String → List String
unfolding template
opening_lines idea challenge build_id =
    ("# Blueprint: " <+> template (or_falsy (prop "name" idea) (prop "key" idea)))
    ∷ ""
    ∷ ("**Build ID:** " <+> build_id)
    ∷ ("**Challenge:** " <+> challenge)
    ∷ ""
    ∷ "## What to build"
    ∷ ""
    ∷ template (or_falsy (prop "description" idea) (or_falsy (prop "mini_thesis" idea) (str "")))
    ∷ ""
    ∷ (titled_if (prop "pain_replaced" idea) "## Pain replaced"
          (template (prop "pain_replaced" idea))
        ++ (titled_if (prop "delta" idea) "## Capability delta" (template (prop "delta" idea))
            ++ titled_if (prop "why_deterministic" idea) "## Why this must be deterministic"
                (template (prop "why_deterministic" idea))))

-- The lines after the interfaces.
unfoldable closing_lines : Value → Value → String → List String
unfolding template failure_line strategy_section
closing_lines idea context challenge =
    titled_if (prop "implementation" idea) "## Implementation approach"
      (template (prop "implementation" idea))
    ++ (failure_section (array (prop "known_failures" context))
        ++ (strategy_section (prop "strategy_version" context)
            ++ (("## Technical requirements" ∷ "" ∷ technical_lines)
                ++ (challenge_lines challenge ++ acceptance_lines challenge))))

abbrev pub interfaces_of : Value → Value
interfaces_of idea = or_falsy (prop "interfaces" idea) (or_falsy (prop "mcp" idea) (str ""))

-- `opts.challenge || crypto.randomBytes(8).toString('hex')`, and the same for the build id.
abbrev pub given_or : Value → String → String
given_or v made = if truthy v then template v else made

-- `compileBlueprint(idea, context, opts)`
unfoldable pub compile_blueprint : Value → Value → Value → String → String → Option String
unfolding template interface_section opening_lines closing_lines
compile_blueprint idea context opts random_challenge stamped_id =
    let challenge = given_or (prop "challenge" opts) random_challenge in
    let build_id = given_or (prop "buildId" opts) stamped_id in
    elim (interface_section (interfaces_of idea)) [
      | none ↦ none
      | some interfaces ↦ some (
          join_lines (
            opening_lines idea challenge build_id
            ++ (interfaces ++ closing_lines idea context challenge)))
    ]

closing_lines-proof :
    (idea context : Value) (challenge : String)
    → In (proof_of challenge) (closing_lines idea context challenge)
unfolding closing_lines
closing_lines-proof idea context challenge =
    let last = challenge_lines challenge ++ acceptance_lines challenge in
    let technical = ("## Technical requirements" ∷ "" ∷ technical_lines) ++ last in
    let strategy = strategy_section (prop "strategy_version" context) ++ technical in
    let failures = failure_section (array (prop "known_failures" context)) ++ strategy in
    let implementation = prop "implementation" idea in
    In-append_right _
      (titled_if implementation "## Implementation approach" (template implementation)) failures
      (In-append_right _ (failure_section (array (prop "known_failures" context))) strategy (
        In-append_right _ (strategy_section (prop "strategy_version" context)) technical
          (inr (inr (inr (inr (inr (inr (inr (inr (inr (inr (inr (inr (inr (inl refl))))))))))))))))

-- A blueprint that is compiled says, whatever the idea and the context hold, that the app has to answer
-- with the challenge of the call, which is the given one where one is given.
pub compile_blueprint_proof :
    (idea context opts : Value) (random_challenge stamped_id text : String)
    → compile_blueprint idea context opts random_challenge stamped_id ≡ some text
    → (before : String) × (after : String) × (text
        ≡ before <+> (proof_of (given_or (prop "challenge" opts) random_challenge) <+> after))
unfolding compile_blueprint
compile_blueprint_proof idea context opts random_challenge stamped_id text =
    go (interface_section (interfaces_of idea))
  where
    go :
        (o : Option (List String))
        → ◌≡◌ {A = Option String}
            (elim o [
              | none ↦ none
              | some interfaces ↦ some (
                  join_lines (
                    opening_lines idea
                      (given_or (prop "challenge" opts) random_challenge)
                      (given_or (prop "buildId" opts) stamped_id)
                    ++ (interfaces
                        ++ closing_lines idea context
                            (given_or (prop "challenge" opts) random_challenge))))
            ])
            (some text)
        → (before : String) × (after : String) × (text
            ≡ before <+> (proof_of (given_or (prop "challenge" opts) random_challenge) <+> after))
    go none e = absurd (none-ne-some text e)
    go (some interfaces) e =
        let challenge = given_or (prop "challenge" opts) random_challenge in
        let opening = opening_lines idea challenge (given_or (prop "buildId" opts) stamped_id) in
        let closing = closing_lines idea context challenge in
        let (before, after, split) =
          join_lines-In (proof_of challenge) (opening ++ (interfaces ++ closing)) (
            In-append_right _ opening _ (
              In-append_right _ interfaces closing (closing_lines-proof idea context challenge))) in
        (
          before,
          after,
          sym (some-injective (join_lines (opening ++ (interfaces ++ closing))) text e) ∙ split,
        )
