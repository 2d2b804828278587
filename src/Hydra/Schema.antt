-- ===== src/Hydra/Schema.antt =====
-- The schema of the Hydra graph (src/graph/hydradb/schema.js): the kinds of node with the prefixes of
-- their ids, and the kinds of relationship.
use finalbuilds.Prelude.{String, List, [], ◌∷◌, ◌++◌}
use finalbuilds.Prelude.Dict.{Dict}

pub record NodeSchema : Type 0 where
  pub label : String
  pub id_prefix : String
  pub required_props : List String
  pub indexed_props : List String

abbrev pub node_schema : String → String → List String → List String → NodeSchema
node_schema label id_prefix required_props indexed_props = record {
  label = label;
  id_prefix = id_prefix;
  required_props = required_props;
  indexed_props = indexed_props;
}

-- The entries up to `Idea`: what builds, sites and ideas are made of.
abbrev build_schemas : Dict NodeSchema
build_schemas =
    (
      "BuildRun",
      node_schema "BuildRun" "build_" ("id" ∷ "status" ∷ [])
          ("status" ∷ "passed" ∷ "started_at" ∷ []),
    )
    ∷ (
      "BuildAttempt",
      node_schema "BuildAttempt" "attempt_" ("id" ∷ "attempt_number" ∷ "status" ∷ [])
          ("attempt_number" ∷ "status" ∷ "build_ok" ∷ "preview_ok" ∷ []),
    )
    ∷ (
      "Failure",
      node_schema "Failure" "fail_" ("id" ∷ "failure_class" ∷ []) ("failure_class" ∷ []),
    )
    ∷ ("FailureClass", node_schema "FailureClass" "" ("id" ∷ "name" ∷ []) ("name" ∷ []))
    ∷ ("Strategy", node_schema "Strategy" "strategy_" ("id" ∷ "name" ∷ []) ("name" ∷ []))
    ∷ (
      "StrategyVersion",
      node_schema "StrategyVersion" "strategyv_" ("id" ∷ "version" ∷ "status" ∷ [])
          ("status" ∷ "version" ∷ []),
    )
    ∷ ("Standard", node_schema "Standard" "std_" ("id" ∷ "name" ∷ []) ("name" ∷ []))
    ∷ (
      "StandardVersion",
      node_schema "StandardVersion" "stdv_" ("id" ∷ "version" ∷ "status" ∷ [])
          ("status" ∷ "version" ∷ []),
    )
    ∷ ("Capability", node_schema "Capability" "cap_" ("id" ∷ "name" ∷ []) ("name" ∷ []))
    ∷ ("Product", node_schema "Product" "prod_" ("id" ∷ "name" ∷ []) ("name" ∷ []))
    ∷ ("Site", node_schema "Site" "site_" ("id" ∷ "name" ∷ []) ("name" ∷ "url" ∷ []))
    ∷ ("Deployment", node_schema "Deployment" "deploy_" ("id" ∷ "status" ∷ []) ("status" ∷ []))
    ∷ ("Artifact", node_schema "Artifact" "art_" ("id" ∷ "sha256" ∷ []) ("sha256" ∷ []))
    ∷ ("Idea", node_schema "Idea" "idea_" ("id" ∷ "name" ∷ []) ("name" ∷ []))
    ∷ []

-- The entries after: what is learnt of them.
abbrev knowledge_schemas : Dict NodeSchema
knowledge_schemas =
    ("IdeaGenerator", node_schema "IdeaGenerator" "gen_" ("id" ∷ "name" ∷ []) ("name" ∷ []))
    ∷ ("ResearchReport", node_schema "ResearchReport" "res_" ("id" ∷ "title" ∷ []) ([]))
    ∷ (
      "Observation",
      node_schema "Observation" "obs_" ("id" ∷ "metric" ∷ "status" ∷ []) ("metric" ∷ "status" ∷ []),
    )
    ∷ (
      "Hypothesis",
      node_schema "Hypothesis" "hyp_" ("id" ∷ "statement" ∷ "status" ∷ []) ("status" ∷ []),
    )
    ∷ ("Experiment", node_schema "Experiment" "exp_" ("id" ∷ "name" ∷ []) ("name" ∷ []))
    ∷ ("ExperimentArm", node_schema "ExperimentArm" "arm_" ("id" ∷ "name" ∷ []) ([]))
    ∷ ("Model", node_schema "Model" "model_" ("id" ∷ "name" ∷ []) ("name" ∷ "family" ∷ []))
    ∷ (
      "ModelVersion",
      node_schema "ModelVersion" "modelv_" ("id" ∷ "model_id" ∷ "version" ∷ []) ("model_id" ∷ []),
    )
    ∷ (
      "ModelConfiguration",
      node_schema "ModelConfiguration" "mc_" ("id" ∷ "model_version_id" ∷ []) ([]),
    )
    ∷ ("Component", node_schema "Component" "comp_" ("id" ∷ "name" ∷ []) ("name" ∷ []))
    ∷ (
      "ComponentVersion",
      node_schema "ComponentVersion" "compv_" ("id" ∷ "component_id" ∷ "version" ∷ [])
          ("component_id" ∷ []),
    )
    ∷ ("Procedure", node_schema "Procedure" "proc_" ("id" ∷ "name" ∷ []) ("name" ∷ []))
    ∷ (
      "ProcedureVersion",
      node_schema "ProcedureVersion" "procv_" ("id" ∷ "procedure_id" ∷ "version" ∷ "status" ∷ [])
          ("status" ∷ []),
    )
    ∷ ("Lesson", node_schema "Lesson" "lesson_" ("id" ∷ "statement" ∷ []) ([]))
    ∷ []

abbrev pub node_schemas : Dict NodeSchema
node_schemas = build_schemas ++ knowledge_schemas

abbrev pub relationship_types : Dict String
relationship_types =
    ("GENERATED", "GENERATED")
    ∷ ("PROPOSES", "PROPOSES")
    ∷ ("RESEARCHED_BY", "RESEARCHED_BY")
    ∷ ("BUILT_FROM", "BUILT_FROM")
    ∷ ("BUILT_BY", "BUILT_BY")
    ∷ ("PRODUCED", "PRODUCED")
    ∷ ("HAS_ATTEMPT", "HAS_ATTEMPT")
    ∷ ("EXECUTED_TASK", "EXECUTED_TASK")
    ∷ ("FAILED_WITH", "FAILED_WITH")
    ∷ ("INSTANCE_OF", "INSTANCE_OF")
    ∷ ("FIXED_BY", "FIXED_BY")
    ∷ ("VERIFIED_BY", "VERIFIED_BY")
    ∷ ("CREATED_ARTIFACT", "CREATED_ARTIFACT")
    ∷ ("IMPLEMENTS", "IMPLEMENTS")
    ∷ ("EXPOSES", "EXPOSES")
    ∷ ("DEPLOYED_AS", "DEPLOYED_AS")
    ∷ ("DEPENDS_ON", "DEPENDS_ON")
    ∷ ("CONFORMS_TO", "CONFORMS_TO")
    ∷ ("AFFECTS", "AFFECTS")
    ∷ ("SUPERSEDES", "SUPERSEDES")
    ∷ ("USED_STRATEGY", "USED_STRATEGY")
    ∷ ("HAS_VERSION", "HAS_VERSION")
    ∷ ("USED_MODEL", "USED_MODEL")
    ∷ ("OBSERVED_BY", "OBSERVED_BY")
    ∷ ("MEASURES", "MEASURES")
    ∷ ("TESTS", "TESTS")
    ∷ ("HAS_ARM", "HAS_ARM")
    ∷ ("ASSIGNED_TO", "ASSIGNED_TO")
    ∷ ("SUPPORTS", "SUPPORTS")
    ∷ ("CONTRADICTS", "CONTRADICTS")
    ∷ ("DERIVED_FROM", "DERIVED_FROM")
    ∷ ("SUPPORTED_BY", "SUPPORTED_BY")
    ∷ ("INPUT_TO", "INPUT_TO")
    ∷ ("OUTPUT_OF", "OUTPUT_OF")
    ∷ ("BELONGS_TO_PROJECT", "BELONGS_TO_PROJECT")
    ∷ ("FROM_REPOSITORY", "FROM_REPOSITORY")
    ∷ ("AT_COMMIT", "AT_COMMIT")
    ∷ ("USED_COMPONENT", "USED_COMPONENT")
    ∷ ("IMPLEMENTED_BY", "IMPLEMENTED_BY")
    ∷ ("HAS_PROCEDURE", "HAS_PROCEDURE")
    ∷ ("LEARNS_FROM", "LEARNS_FROM")
    ∷ []
