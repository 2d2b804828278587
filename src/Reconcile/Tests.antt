-- ===== src/Reconcile/Tests.antt =====
-- Two observations of one pair, and the theorems on the drift at them.
use finalbuilds.Prelude.{String, ◌≡◌, refl, some, [], ◌∷◌}
use finalbuilds.Prelude.Int.{pos}
use finalbuilds.Prelude.Dict.{lookup}
use finalbuilds.Model.Value.{str, num}
use mathlib.Core.Option.{some-injective}
use finalbuilds.Prelude.{subst}
use finalbuilds.Graph.InMemory.{Graph, Entity, EntityInput, empty, upsert_entity}
use finalbuilds.Graph.Index.{IsLinked, IsPlain}
use finalbuilds.Graph.Keeps.{upsert_entity_keeps}
use finalbuilds.Event.Projector.Handlers.{IsPlain-of_lacks}
use finalbuilds.Graph.Links.{empty-IsLinked}
use finalbuilds.Reconcile.Order.{less}
use finalbuilds.Reconcile.Drift.{tally, key_of, observed_at}
use finalbuilds.Reconcile.Latest.{Latest, tally-Latest}

abbrev observation : String → String → Entity
observation id time = record {
  id = id;
  type = "Observation";
  name = str "standard.compliance";
  document =
      ("metric", str "standard.compliance")
      ∷ ("subject_id", str "s")
      ∷ ("standard_version_id", str "v")
      ∷ ("observed_at", str time)
      ∷ ("value", num (pos 1))
      ∷ [];
}

abbrev old : Entity
old = observation "o1" "2026-01-01"

abbrev newer : Entity
newer = observation "o2" "2026-01-02"

latest_test : lookup (key_of old) (tally (newer ∷ old ∷ []) []) ≡ some newer
unfolding tally key_of observed_at less
latest_test = refl

tally-Latest_example : Latest (newer ∷ old ∷ []) (tally (newer ∷ old ∷ []) [])
tally-Latest_example = tally-Latest (newer ∷ old ∷ [])

abbrev site_input : EntityInput
site_input = record { id = str "s"; type = "Site"; name = some (str "S"); document = [] }

abbrev one_site : Graph
one_site = (upsert_entity site_input empty).1

one_site-IsLinked : IsLinked one_site
one_site-IsLinked =
    upsert_entity_keeps site_input empty
      (λ id e. subst IsPlain (some-injective _ _ e) (IsPlain-of_lacks "s" refl)) empty-IsLinked
