-- ===== src/Model/RelKind.antt =====
-- `RelKind` of src/model/types.js.
use finalbuilds.Prelude.{String}

abbrev pub generated : String
generated = "GENERATED"

abbrev pub researched_by : String
researched_by = "RESEARCHED_BY"

abbrev pub proposes : String
proposes = "PROPOSES"

abbrev pub built_by : String
built_by = "BUILT_BY"

abbrev pub produced : String
produced = "PRODUCED"

abbrev pub implements : String
implements = "IMPLEMENTS"

abbrev pub exposes : String
exposes = "EXPOSES"

abbrev pub deployed_as : String
deployed_as = "DEPLOYED_AS"

abbrev pub observed_by : String
observed_by = "OBSERVED_BY"

abbrev pub observed : String
observed = "OBSERVED"

abbrev pub conforms_to : String
conforms_to = "CONFORMS_TO"

abbrev pub supersedes : String
supersedes = "SUPERSEDES"

abbrev pub supports : String
supports = "SUPPORTS"

abbrev pub contradicts : String
contradicts = "CONTRADICTS"

abbrev pub affects : String
affects = "AFFECTS"

abbrev pub uses : String
uses = "USES"

abbrev pub failed_with : String
failed_with = "FAILED_WITH"

abbrev pub fixed_by : String
fixed_by = "FIXED_BY"

abbrev pub tests : String
tests = "TESTS"

abbrev pub assigned_to : String
assigned_to = "ASSIGNED_TO"

abbrev pub has_arm : String
has_arm = "HAS_ARM"

abbrev pub measures : String
measures = "MEASURES"

abbrev pub triggered : String
triggered = "TRIGGERED"

abbrev pub depends_on : String
depends_on = "DEPENDS_ON"

abbrev pub executed : String
executed = "EXECUTED"

abbrev pub input_to : String
input_to = "INPUT_TO"

abbrev pub output_of : String
output_of = "OUTPUT_OF"
