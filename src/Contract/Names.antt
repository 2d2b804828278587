-- ===== src/Contract/Names.antt =====
-- The names that contracts/index.js fixes.
use finalbuilds.Prelude.{String, List, [], ◌∷◌}

abbrev pub contract_version : String
contract_version = "1.0.0"

-- The keys of `SYSTEMS`.
abbrev pub system_keys : List String
system_keys = "FINALBUILDS2" ∷ "BUILDA_V2" ∷ "AGENTSEOLAB" ∷ "UNBUNDLED" ∷ []

abbrev pub event_types : List String
event_types =
    "idea.created" ∷ "idea.generator.executed" ∷ "research.recorded" ∷ "capability.defined"
    ∷ "capability.updated" ∷ "build.requested" ∷ "build.started" ∷ "build.attempt.started"
    ∷ "build.task.started" ∷ "build.task.completed" ∷ "build.failure.recorded"
    ∷ "build.repair.started" ∷ "build.repair.completed" ∷ "build.audit.completed"
    ∷ "build.artifact.created" ∷ "build.completed" ∷ "product.graduated" ∷ "site.registered"
    ∷ "deployment.started" ∷ "deployment.completed" ∷ "deployment.rolled_back"
    ∷ "observation.recorded" ∷ "observation.invalidated" ∷ "hypothesis.created"
    ∷ "experiment.created" ∷ "experiment.arm.created" ∷ "experiment.arm.assigned"
    ∷ "experiment.observation.recorded" ∷ "experiment.completed" ∷ "standard.registered"
    ∷ "standard.version.registered" ∷ "standard.conformance.observed" ∷ "strategy.registered"
    ∷ "strategy.version.registered" ∷ "strategy.evaluated" ∷ "strategy.promoted"
    ∷ "strategy.deprecated" ∷ "strategy.rolled_back" ∷ "failure.classified"
    ∷ "model.execution.recorded" ∷ "artifact.created" ∷ "artifact.invalidated" ∷ []

abbrev pub failure_classes : List String
failure_classes =
    "TASK_STREAM_TERMINATED" ∷ "TASK_ZERO_EVENTS" ∷ "SANDBOX_NOT_READY" ∷ "SANDBOX_CRASHED"
    ∷ "DEPENDENCY_INSTALL_FAILED" ∷ "COMPILE_FAILED" ∷ "TEST_FAILED" ∷ "PREVIEW_FAILED"
    ∷ "HTTP_HEALTH_FAILED" ∷ "SECRET_DETECTED" ∷ "SECURITY_GATE_FAILED" ∷ "MISSING_OPENAPI"
    ∷ "MISSING_LLMS_TXT" ∷ "MISSING_ROBOTS" ∷ "MISSING_SITEMAP" ∷ "PORT_BINDING_FAILED"
    ∷ "PROVIDER_AUTH_FAILED" ∷ "PROVIDER_RATE_LIMITED" ∷ "TIMEOUT" ∷ "UNKNOWN" ∷ []
