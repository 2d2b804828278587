-- ===== src/Reconcile/Drift.antt =====
-- `standardDrift` of src/reconcile/reconciler.js over the in-memory graph. Texts are compared by the
-- codes of their characters.
use finalbuilds.Prelude.{
  String, Bool, true, false, ◌&&◌, Option, none, some, List, [], ◌∷◌, ◌++◌, if◌then◌else◌,
}
use finalbuilds.Prelude.Text.{◌<+>◌}
use finalbuilds.Prelude.Int.{pos, eqb_ℤ}
use finalbuilds.Prelude.Dict.{Dict, lookup, insert}
use finalbuilds.Model.Value.{Value, num, str, get, or_nullish}
use finalbuilds.Model.Template.{template}
use finalbuilds.Model.EntityType
use finalbuilds.Model.RelKind
use finalbuilds.Graph.InMemory.{
  Graph, Entity, Neighbor, outgoing, separator, find_entities, neighbors,
}
use finalbuilds.Contract.Letters.{codes}
use finalbuilds.Contract.Validate.{is_text}
use finalbuilds.Reconcile.Order.{less}

-- `String(o.data.observed_at ?? '')`
unfoldable pub observed_at : Entity → String
unfolding template
observed_at o = template (or_nullish (get "observed_at" o.document) (str ""))

-- The observation is one of compliance.
abbrev pub is_compliance : Entity → Bool
is_compliance o = is_text (get "metric" o.document) "standard.compliance"

unfoldable pub pair_key : String → String → String
pair_key site version = site <+> (separator <+> version)

unfoldable pub key_of : Entity → String
unfolding template pair_key
key_of o =
    pair_key (template (get "subject_id" o.document))
      (template (get "standard_version_id" o.document))

-- `!previous || String(o…) > String(previous…)`
abbrev pub replaces : Entity → Option Entity → Bool
replaces o none = true
replaces o (some previous) = less (codes (observed_at previous)) (codes (observed_at o))

-- The map of the latest compliance observations.
unfoldable pub tally : List Entity → Dict Entity → Dict Entity
tally [] d = d
tally (o ∷ os) d =
    if is_compliance o && replaces o (lookup (key_of o) d)
    then tally os (insert (key_of o) o d)
    else tally os d

pub record Drift : Type 0 where
  pub site_id : String
  pub site_name : Value
  pub standard_version_id : String
  pub reason : String
  pub observation_id : Option String

-- `observed.data?.value !== 1`, negated.
abbrev pub is_one : Value → Bool
is_one (num n) = eqb_ℤ n (pos 1)
is_one v = false

abbrev pub drift_for : Entity → String → Option Entity → List Drift
drift_for site version none =
    record {
      site_id = site.id;
      site_name = site.name;
      standard_version_id = version;
      reason = "unobserved";
      observation_id = none;
    }
    ∷ []
drift_for site version (some o) =
    if is_one (get "value" o.document)
    then []
    else record {
      site_id = site.id;
      site_name = site.name;
      standard_version_id = version;
      reason = "noncompliant";
      observation_id = some o.id;
    }
      ∷ []

unfoldable pub drift_of_site : Dict Entity → Entity → List Neighbor → List Drift
drift_of_site compliance site [] = []
drift_of_site compliance site (n ∷ desired) =
    drift_for site n.entity.id (lookup (pair_key site.id n.entity.id) compliance)
    ++ drift_of_site compliance site desired

-- The loop over the sites; `none` is a fault of `neighbors`.
unfoldable pub drift_of_sites : Dict Entity → Graph → List Entity → Option (List Drift)
unfolding drift_of_site neighbors
drift_of_sites compliance g [] = some []
drift_of_sites compliance g (site ∷ sites) =
    let rest = drift_of_sites compliance g sites in
    elim (neighbors site.id outgoing (some (RelKind.conforms_to ∷ [])) g) [
      | none ↦ none
      | some desired ↦ elim rest [
        | none ↦ none
        | some later ↦ some (drift_of_site compliance site desired ++ later)
      ]
    ]

unfoldable pub standard_drift : Graph → Option (List Drift)
unfolding drift_of_sites tally
standard_drift g =
    drift_of_sites (tally (find_entities (some EntityType.observation) (λ _. true) g) []) g
      (find_entities (some EntityType.site) (λ _. true) g)
