-- ===== src/Registry/Tests.antt =====
-- A registry of two capabilities.
use finalbuilds.Prelude.{true, [], ◌∷◌, ◌≡◌, refl, length}
use finalbuilds.Model.Value.{Document, str}
use finalbuilds.Registry.Capabilities.{Registry, id_of, list, remove, import_all}

abbrev fetch : Document
fetch =
    ("name", str "Fetch")
    ∷ ("slug", str "fetch")
    ∷ ("category", str "net")
    ∷ ("description", str "Gets pages")
    ∷ []

abbrev parse : Document
parse =
    ("id", str "get://text/parse")
    ∷ ("name", str "Parse")
    ∷ ("category", str "text")
    ∷ ("description", str "")
    ∷ []

abbrev both : Registry
both = (import_all "now" (fetch ∷ parse ∷ []) []).1

id_test : id_of fetch ≡ "get://net/fetch"
unfolding id_of
id_test = refl

list_test : length (list (("category", str "net") ∷ []) both) ≡ 1
unfolding list import_all
list_test = refl

remove_test : (remove "get://text/parse" both).0 ≡ true
unfolding remove import_all
remove_test = refl
