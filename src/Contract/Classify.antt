-- ===== src/Contract/Classify.antt =====
-- `classifyFailure` (contracts/index.js): the first rule that a message meets gives its class.
use finalbuilds.Prelude.{
  String, Bool, true, false, ◌&&◌, ◌||◌, ◌≡◌, refl, sym, ◌∙◌, ◌↔◌, ◌==◌, eq_iff, List, [], ◌∷◌, map,
  All, if◌then◌else◌,
}
use mathlib.Core.Bool.{false≢true}
use finalbuilds.Prelude.Text.{includes}
use finalbuilds.Contract.Letters.{codes, lower, has_part}
use finalbuilds.Contract.Names.{failure_classes}

abbrev pub Rule : Type 0
Rule = Bool × String

-- The ladder of `if`s, the last `return` behind it.
abbrev pub first_class : List Rule → String
first_class [] = "UNKNOWN"
first_class ((met, class) ∷ rules) = if met then class else first_class rules

-- The rules, for the test that the lowered message has a part.
unfoldable pub class_rules : (String → Bool) → List Rule
class_rules has =
    (has "stream ended" || has "stream terminated", "TASK_STREAM_TERMINATED")
    ∷ (has "zero events", "TASK_ZERO_EVENTS")
    ∷ (has "not running" || has "sandbox not ready", "SANDBOX_NOT_READY")
    ∷ (has "sandbox" && (has "crash" || has "oom"), "SANDBOX_CRASHED")
    ∷ (has "install" && has "fail", "DEPENDENCY_INSTALL_FAILED")
    ∷ (has "compile" || has "build_error", "COMPILE_FAILED")
    ∷ (has "test" && has "fail", "TEST_FAILED")
    ∷ (has "preview" && has "fail", "PREVIEW_FAILED")
    ∷ (has "http" && has "health", "HTTP_HEALTH_FAILED")
    ∷ (has "secret" || has "hardcoded", "SECRET_DETECTED")
    ∷ (has "security", "SECURITY_GATE_FAILED")
    ∷ (has "openapi", "MISSING_OPENAPI")
    ∷ (has "llms.txt", "MISSING_LLMS_TXT")
    ∷ (has "robots", "MISSING_ROBOTS")
    ∷ (has "sitemap", "MISSING_SITEMAP")
    ∷ (has "port" && has "bind", "PORT_BINDING_FAILED")
    ∷ (has "auth" || has "unauthorized", "PROVIDER_AUTH_FAILED")
    ∷ (has "rate limit", "PROVIDER_RATE_LIMITED")
    ∷ (has "timeout", "TIMEOUT")
    ∷ []

unfoldable pub classify_failure : String → String
classify_failure message =
    let text = map lower (codes message) in
    first_class (class_rules (λ part. has_part text (codes part)))

abbrev IsClass : Rule → Type 0
IsClass rule = includes failure_classes rule.1 ≡ true

first_class-known :
    (rules : List Rule) → All IsClass rules → includes failure_classes (first_class rules) ≡ true
first_class-known [] h = refl
first_class-known ((true, class) ∷ rules) h = h.0
first_class-known ((false, class) ∷ rules) h = first_class-known rules h.1

-- No rule gives the class of the last `return`.
abbrev IsNamed : Rule → Type 0
IsNamed rule = (rule.1 == "UNKNOWN") ≡ false

abbrev pub IsUnmet : Rule → Type 0
IsUnmet rule = rule.0 ≡ false

first_class-unknown :
    (rules : List Rule) → All IsNamed rules → first_class rules ≡ "UNKNOWN" ↔ All IsUnmet rules
first_class-unknown [] h = (λ _. tt, λ _. refl)
first_class-unknown ((true, class) ∷ rules) h = (
  λ e. absurd (false≢true (sym h.0 ∙ (eq_iff class "UNKNOWN").1 e)),
  λ u. absurd (false≢true (sym u.0)),
)
first_class-unknown ((false, class) ∷ rules) h =
    let rest = first_class-unknown rules h.1 in (λ e. (refl, rest.0 e), λ u. rest.1 u.1)

rules-known : (has : String → Bool) → All IsClass (class_rules has)
unfolding class_rules
rules-known has = assumption refl

rules-IsNamed : (has : String → Bool) → All IsNamed (class_rules has)
unfolding class_rules
rules-IsNamed has = assumption refl

-- The tests of a message: whether its lowered text has a part.
abbrev pub has_lowered : String → String → Bool
has_lowered message part = has_part (map lower (codes message)) (codes part)

-- Every message gets one of the classes that the contract lists, and it gets `UNKNOWN` exactly when
-- it meets no rule.
classify_failure_total :
    (message : String)
    → (includes failure_classes (classify_failure message) ≡ true)
      × (classify_failure message ≡ "UNKNOWN" ↔ All IsUnmet (class_rules (has_lowered message)))
unfolding classify_failure
classify_failure_total message =
    let rules = class_rules (has_lowered message) in
    (
      first_class-known rules (rules-known (has_lowered message)),
      first_class-unknown rules (rules-IsNamed (has_lowered message)),
    )
