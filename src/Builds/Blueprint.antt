-- ===== src/Builds/Blueprint.antt =====
-- `generateBlueprint` (src/dispatch/agentbuild-dispatcher.js).
use finalbuilds.Prelude.{String, List, [], ◌∷◌, ◌++◌, map, if◌then◌else◌}
use finalbuilds.Prelude.Text.{◌<+>◌, join_lines}
use finalbuilds.Model.Value.{Value, str, prop, truthy, or_nullish, array}
use finalbuilds.Model.Template.{template}

-- `sections.push(title, '', text, '')`
abbrev pub titled : String → String → List String
titled title text = title ∷ "" ∷ text ∷ "" ∷ []

abbrev pub titled_if : Value → String → String → List String
titled_if v title text = if truthy v then titled title text else []

unfoldable capability_line : Value → String
unfolding template
capability_line (str c) = "- " <+> c
capability_line c =
    "- "
    <+> (template (prop "name" c)
        <+> (": " <+> template (or_nullish (prop "description" c) (str ""))))

unfoldable tool_line : Value → String
unfolding template
tool_line (str t) = "- `" <+> (t <+> "`")
tool_line t =
    "- `"
    <+> (template (prop "name" t)
        <+> ("`: " <+> template (or_nullish (prop "description" t) (str ""))))

abbrev listed : String → List String → List String
listed title [] = []
listed title lines = titled title (join_lines lines)

abbrev pub technical_lines : List String
technical_lines =
    "- React + Vite frontend (sandbox default)" ∷ "- Node.js backend API on the same port"
    ∷ "- Include README.md, robots.txt, sitemap.xml, llms.txt"
    ∷ "- Include at least one test for core deterministic behavior"
    ∷ "- Bind dev server to 0.0.0.0 on the sandbox-provided port" ∷ "- Semantic accessible HTML"
    ∷ "- Never hardcode credentials" ∷ "" ∷ []

abbrev check_lines : List String
check_lines =
    "## Deterministic success checks" ∷ "" ∷ "- The app builds without errors"
    ∷ "- The preview URL serves a working page"
    ∷ "- Core functionality is implemented (not just a shell)" ∷ "" ∷ []

-- `sections`
unfoldable pub blueprint_sections : Value → Value → Value → List String
unfolding template capability_line tool_line
blueprint_sections idea evaluation invariant =
    let name = or_nullish (prop "name" idea) (str "Untitled") in
    let description = or_nullish (prop "description" idea) (str "") in
    let score = or_nullish (prop "total" evaluation) (str "") in
    ("# Blueprint: " <+> template name)
    ∷ ""
    ∷ "## What to build"
    ∷ ""
    ∷ template description
    ∷ ""
    ∷ (titled_if (prop "pain_replaced" idea) "## Pain replaced"
          (template (prop "pain_replaced" idea))
        ++ (titled_if (prop "delta" idea) "## Capability delta (what the agent can't already do)"
              (template (prop "delta" idea))
            ++ (listed "## Required capabilities"
                  (map capability_line (array (prop "capabilities" idea)))
                ++ (listed "## Tools / MCP endpoints" (map tool_line (array (prop "tools" idea)))
                    ++ (("## Technical requirements" ∷ "" ∷ technical_lines)
                        ++ (titled_if invariant "## Invariant" (template invariant)
                            ++ (titled_if score "## Idea score"
                                  ("Score: " <+> (template score <+> "/18"))
                                ++ check_lines)))))))

-- `generateBlueprint(idea, evaluation, invariant)`
unfoldable pub generate_blueprint : Value → Value → Value → String
unfolding blueprint_sections
generate_blueprint idea evaluation invariant =
    join_lines (blueprint_sections idea evaluation invariant)
