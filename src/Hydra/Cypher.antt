-- ===== src/Hydra/Cypher.antt =====
-- Texts, values and statements of Cypher (src/graph/hydradb/projector.js): `cypherString`, `pv`,
-- `createNode` and `updateNode`. The hash behind `stringToId` and `JSON.stringify` come from outside.
use Prim.Native.Char.{Char, code}
use finalbuilds.Prelude.{ℕ, String, Option, none, some, List, [], ◌∷◌, map, eqb, if◌then◌else◌}
use finalbuilds.Prelude.Int.{pos}
use finalbuilds.Prelude.Text.{◌<+>◌}
use finalbuilds.Model.Value.{Value, Document, undefined, bool, num, str}
use finalbuilds.Model.Template.{template}

-- `s.replace(/c/g, t)`
abbrev pub replace_all : Char → String → String → String
replace_all c t String.[] = ""
replace_all c t (String.◌∷◌ d s) =
    let rest = replace_all c t s in if eqb (code d) (code c) then t <+> rest else String.◌∷◌ d rest

abbrev pub backslash : Char
backslash = "\\"

abbrev pub quote : Char
quote = "'"

abbrev pub newline : Char
newline = "\n"

-- `cypherString(s)`
unfoldable pub cypher_string : String → String
cypher_string s =
    replace_all newline "\\n" (replace_all quote "\\'" (replace_all backslash "\\\\" s))

unfoldable pub quoted : String → String
unfolding cypher_string
quoted s = "'" <+> (cypher_string s <+> "'")

-- `stringToId` of a text; `JSON.stringify`.
pub record Outside : Type 0 where
  pub string_to_id : String → ℕ
  pub stringify : Value → String

-- `xs.join(', ')`
abbrev pub join_commas : List String → String
join_commas [] = ""
join_commas (x ∷ []) = x
join_commas (x ∷ y ∷ xs) = x <+> (", " <+> join_commas (y ∷ xs))

module _ (outside : Outside) where
  open outside use {string_to_id, stringify}

  -- `pv(v)`: `JSON.stringify(undefined)` is `undefined`, which the template writes out.
  unfoldable pub pv : Value → String
  unfolding quoted template
  pv (str s) = quoted s
  pv (num n) = template (num n)
  pv (bool b) = template (bool b)
  pv undefined = "'undefined'"
  pv v = quoted (stringify v)

  -- The statement of `createNode`; `none` is the TypeError of an id that is no text.
  unfoldable pub create_node : String → Value → Document → Option String
  unfolding pv
  create_node label (str id) props =
      let all = ("id", num (pos (string_to_id id))) ∷ ("string_id", str id) ∷ props in
      let pairs = join_commas (map (λ e. e.0 <+> (": " <+> pv e.1)) all) in
      some
        ("CREATE (n:" <+> (label <+> (" {" <+> (pairs <+> "})-[:_GENESIS]->(:_ANCHOR {id: 0})"))))
  create_node label v props = none

  -- The statement of `updateNode`.
  unfoldable pub update_node : String → Value → Document → Option String
  unfolding pv
  update_node label (str id) props =
      let sets = join_commas (map (λ e. "n." <+> (e.0 <+> (" = " <+> pv e.1))) props) in
      some (
        "MATCH (n:"
        <+> (label
            <+> (" {id: " <+> (template (num (pos (string_to_id id))) <+> ("}) SET " <+> sets)))))
  update_node label v props = none
