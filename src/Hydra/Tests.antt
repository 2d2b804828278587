-- ===== src/Hydra/Tests.antt =====
-- Concrete texts and events for the Hydra statements.
use finalbuilds.Prelude.{
  ℕ, true, String, length, ◌≢◌, inl, inr, suc, eqb, if◌then◌else◌, false, ◌≡◌, refl, some, [], ◌∷◌,
}
use finalbuilds.Prelude.Exec.{ok, err}
use finalbuilds.Prelude.Text.{◌<+>◌}
use finalbuilds.Model.Value.{Document, null, str, obj, end, field}
use finalbuilds.Hydra.Cypher.{Outside, cypher_string, create_node, pv}
use finalbuilds.Hydra.Quoting.{read_quoted, read-cypher_string}
use finalbuilds.Hydra.Projector.{described, statements, project_statements}
use finalbuilds.Hydra.Schema.{NodeSchema, node_schema}
use finalbuilds.Hydra.Prefixes.{one_kind_of_id}
use finalbuilds.Hydra.Executor.{Database, Executor, no_stats, execute_all}
use finalbuilds.Hydra.Accounts.{Accounted, execute_all-Accounted}

read-cypher_string_example :
    read_quoted false (cypher_string "it's a \\ and\n'}) DELETE n" <+> ("'" <+> ", x: 1"))
    ≡ some ("it's a \\ and\n'}) DELETE n", ", x: 1")
read-cypher_string_example = read-cypher_string "it's a \\ and\n'}) DELETE n" ", x: 1"

abbrev outside : Outside
outside = record { string_to_id = λ s. 7; stringify = λ v. "{}" }

abbrev idea : Document
idea =
    ("event_type", str "idea.created")
    ∷ ("payload", obj (field "id" (str "i") (field "name" (str "it's") end)))
    ∷ []

idea_test :
    project_statements outside idea
    ≡ some (
        "CREATE (n:Idea {id: 7, string_id: 'i', name: 'it\\'s', description: ''})-[:_GENESIS]->(:_ANCHOR {id: 0})"
        ∷ [])
unfolding project_statements statements described create_node pv
idea_test = refl

-- The entry of strategies, fifth in the table.
abbrev strategy : NodeSchema
strategy = node_schema "Strategy" "strategy_" ("id" ∷ "name" ∷ []) ("name" ∷ [])

has_prefix : strategy.id_prefix ≢ ""
has_prefix = λ e. cc

one_kind_of_id_example : ◌≡◌ {A = String} "Strategy" "Strategy"
one_kind_of_id_example =
    one_kind_of_id "strategy_1" "Strategy" "Strategy" strategy strategy
      (inr (inr (inr (inr (inl refl))))) (inr (inr (inr (inr (inl refl))))) has_prefix has_prefix
      refl refl

-- A database that refuses the second of three statements, and a local store that takes all.
abbrev database : Database ℕ
database = record {
  query = λ n s. if eqb n 2 then err "Hydra: 500" else ok null;
  allow_fallback = true;
  has_local = true;
  apply = λ s l. (ok tt, suc l);
}

abbrev fresh : Executor ℕ
fresh = record { stats = no_stats; store = 0 }

fallback_test : (execute_all database ("a" ∷ "b" ∷ "c" ∷ []) fresh).1.stats.fallback ≡ 1
unfolding execute_all
fallback_test = refl

execute_all-Accounted_example :
    (length (execute_all database ("a" ∷ "b" ∷ []) fresh).0 ≡ 2)
    × Accounted no_stats
        (execute_all database ("a" ∷ "b" ∷ []) fresh).1.stats
        (execute_all database ("a" ∷ "b" ∷ []) fresh).0
execute_all-Accounted_example = execute_all-Accounted database ("a" ∷ "b" ∷ []) fresh
