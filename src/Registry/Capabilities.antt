-- ===== src/Registry/Capabilities.antt =====
-- `CapabilityRegistry` (src/registry/capability-registry.js): a Map of capabilities by id. Ids are texts,
-- and entries keep their places in the Map.
use finalbuilds.Prelude.{
  ℕ, suc, String, Bool, true, false, not, Option, none, some, List, [], ◌∷◌, map, keep, take,
  length, ◌==◌, if◌then◌else◌,
}
use finalbuilds.Prelude.Text.{◌<+>◌}
use finalbuilds.Prelude.Dict.{Dict, lookup, insert, erase, contains, merge, values}
use finalbuilds.Prelude.Exec.{Outcome, ok, err}
use finalbuilds.Model.Value.{
  Value, Document, bool, str, arr, obj, end, nil, field, get, truthy, or_falsy,
}
use finalbuilds.Model.Template.{template}
use finalbuilds.Contract.Letters.{Codes, codes, lower, has_part}

abbrev pub Registry : Type 0
Registry = Dict Document

-- The id that `register` gives.
unfoldable pub id_of : Document → String
unfolding template
id_of c = template (
    or_falsy (get "id" c)
      (str ("get://" <+> (template (get "category" c) <+> ("/" <+> template (get "slug" c))))))

abbrev is_false : Value → Bool
is_false (bool b) = not b
is_false v = false

-- `entry`, at a time.
unfoldable pub entry_of : String → Document → Document
unfolding id_of template
entry_of now c =
    ("id", str (id_of c))
    ∷ ("name", get "name" c)
    ∷ ("slug", get "slug" c)
    ∷ ("category", get "category" c)
    ∷ ("description", get "description" c)
    ∷ ("path", str ("/" <+> (template (get "category" c) <+> ("/" <+> template (get "slug" c)))))
    ∷ ("status", str "healthy")
    ∷ ("interfaces", or_falsy (get "interfaces" c) (obj end))
    ∷ ("pricing", or_falsy (get "pricing" c) (obj (field "type" (str "free") end)))
    ∷ ("performance", or_falsy (get "performance" c) (obj end))
    ∷ ("useWhen", get "useWhen" c)
    ∷ ("dontUseWhen", get "dontUseWhen" c)
    ∷ ("inputType", or_falsy (get "inputType" c) (str "string"))
    ∷ ("outputType", or_falsy (get "outputType" c) (str "string"))
    ∷ ("deterministic", bool (not (is_false (get "deterministic" c))))
    ∷ ("sideEffects", or_falsy (get "sideEffects" c) (str "none"))
    ∷ ("auth", or_falsy (get "auth" c) (str "none"))
    ∷ ("tools", or_falsy (get "tools" c) (arr nil))
    ∷ ("examples", or_falsy (get "examples" c) (arr nil))
    ∷ ("version", or_falsy (get "version" c) (str "1.0.0"))
    ∷ ("lastVerified", str now)
    ∷ ("created_at", str now)
    ∷ []

-- `register(capability)`: the entry, and the registry.
unfoldable pub register : String → Document → Registry → Document × Registry
unfolding entry_of
register now c r = (entry_of now c, insert (id_of c) (entry_of now c) r)

-- `get(id)`
abbrev pub find : String → Registry → Option Document
find id r = lookup id r

abbrev same_text : Value → Value → Bool
same_text (str s) (str t) = s == t
same_text v w = false

-- `if (filter.key) results = results.filter(c => c[key] === filter[key])`, of filters that are texts.
abbrev filtered : String → Value → List Document → List Document
filtered key wanted cs = if truthy wanted then keep (λ c. same_text (get key c) wanted) cs else cs

-- `list(filter)`
unfoldable pub list : Document → Registry → List Document
list filter r =
    filtered "status" (get "status" filter) (filtered "category" (get "category" filter) (values r))

-- `c[key].toLowerCase().includes(q)`; `none` is the TypeError of what is no text.
abbrev mentions : Codes → Value → Option Bool
mentions q (str s) = some (has_part (map lower (codes s)) q)
mentions q v = none

-- `a || b`, where `b` is looked at only if `a` is false.
abbrev or_else : Option Bool → Option Bool → Option Bool
or_else none b = none
or_else (some true) b = some true
or_else (some false) b = b

abbrev matches : Codes → Document → Option Bool
matches q c =
    or_else (mentions q (get "name" c))
      (or_else (mentions q (get "description" c)) (mentions q (get "id" c)))

abbrev push_if : Option Bool → Document → Option (List Document) → Option (List Document)
push_if none c found = none
push_if (some b) c none = none
push_if (some b) c (some found) = some (if b then c ∷ found else found)

abbrev all_matches : Codes → List Document → Option (List Document)
all_matches q [] = some []
all_matches q (c ∷ cs) = push_if (matches q c) c (all_matches q cs)

-- `search(query, { limit })`
unfoldable pub search : String → ℕ → Registry → Option (List Document)
unfolding lower
search query limit r = elim (all_matches (map lower (codes query)) (values r)) [
  | none ↦ none
  | some found ↦ some (take limit found)
]

-- `update(id, updates)`
unfoldable pub update : String → String → Document → Registry → Outcome String Document × Registry
update now id updates r = elim (lookup id r) [
  | none ↦ (err ("Capability not found: " <+> id), r)
  | some c ↦
      let updated = merge (merge c updates) (("updated_at", str now) ∷ []) in
      (ok updated, insert id updated r)
]

-- `remove(id)`
unfoldable pub remove : String → Registry → Bool × Registry
remove id r = (contains id r, erase id r)

-- `count()`, `export()`
abbrev pub count : Registry → ℕ
count r = length r

abbrev pub export : Registry → List Document
export r = values r

-- `import(capabilities)`: the number, and the registry.
unfoldable pub import_all : String → List Document → Registry → ℕ × Registry
unfolding register
import_all now [] r = (0, r)
import_all now (c ∷ cs) r =
    let (n, later) = import_all now cs (register now c r).1 in (suc n, later)
