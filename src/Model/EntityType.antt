-- ===== src/Model/EntityType.antt =====
-- `EntityType` of src/model/types.js.
use finalbuilds.Prelude.{String}

abbrev pub idea_generator : String
idea_generator = "IdeaGenerator"

abbrev pub idea : String
idea = "Idea"

abbrev pub research_report : String
research_report = "ResearchReport"

abbrev pub capability : String
capability = "Capability"

abbrev pub product : String
product = "Product"

abbrev pub site : String
site = "Site"

abbrev pub build_run : String
build_run = "BuildRun"

abbrev pub deployment : String
deployment = "Deployment"

abbrev pub standard : String
standard = "Standard"

abbrev pub standard_version : String
standard_version = "StandardVersion"

abbrev pub sensor : String
sensor = "Sensor"

abbrev pub observation : String
observation = "Observation"

abbrev pub experiment : String
experiment = "Experiment"

abbrev pub experiment_arm : String
experiment_arm = "ExperimentArm"

abbrev pub recipe : String
recipe = "Recipe"

abbrev pub dependency : String
dependency = "Dependency"

abbrev pub failure : String
failure = "Failure"

abbrev pub task : String
task = "Task"

abbrev pub process : String
process = "Process"

abbrev pub process_run : String
process_run = "ProcessRun"
