-- ===== src/Standards/Verdict.antt =====
-- What a verdict on a standard means, and what the reconciler makes of it
-- (src/standards/conformance.js, src/reconcile/reconciler.js).
use mathlib.Core.Bool.{false≢true}
use mathlib.Core.List.{cons≢nil}
use finalbuilds.Prelude.{
  String, Bool, true, false, not, ◌||◌, Option, some, List, [], ◌∷◌, ◌++◌, ◌≡◌, refl, ap, ◌∙◌, ◌↔◌,
  if◌then◌else◌,
}
use finalbuilds.Prelude.Dict.{Dict, lookup}
use finalbuilds.Model.Value.{Value, Document, num, get}
use finalbuilds.Prelude.Int.{pos}
use finalbuilds.Model.Template.{template}
use finalbuilds.Contract.Validate.{is_text}
use finalbuilds.Graph.InMemory.{Graph, Entity, Neighbor}
use finalbuilds.Event.Log.{Stamp}
use finalbuilds.Event.Projector.{project_event}
use finalbuilds.Standards.Recorded.{observation_id, recorded_event, recorded_fields}
use finalbuilds.Reconcile.Drift.{is_compliance, key_of, pair_key, drift_of_site, drift_for, is_one}
use finalbuilds.Standards.Conformance.{is_required, passes, evaluate}

-- The requirement is met, or it is none that has to be.
abbrev pub IsMet : (String → Option Document) → Value → Type 0
IsMet latest req = (not (is_required req) || passes latest req) ≡ true

by_verdict :
    (site : Entity) (version : String) (o : Entity) (seen : Option Entity) (b : Bool)
    → seen ≡ some o
    → is_one (get "value" o.document) ≡ b
    → ((drift_for site version seen ++ []) ≡ []) ↔ (b ≡ true)
by_verdict site version o seen true found value = ((λ e. refl), (λ h. rw (found, value) refl))
by_verdict site version o seen false found value =
    ((λ e. absurd (cons≢nil (rw (found, value) at e))), (λ h. absurd (false≢true h)))

-- What the projection of the event of a recorded verdict stores under the verdict's id, in any graph,
-- also where a link to it cannot be made, is an observation of compliance under the key of the site and
-- the version; and while it is the latest with that key, the site has no drift from the version exactly
-- when the verdict was that it complies.
pub recorded_drift :
    (random_id : String → String) (now : String) (stamp : Stamp) (meta : Document) (g : Graph)
    (site : Entity) (n : Neighbor) (latest : String → Option Document) (o : Entity)
    (compliance : Dict Entity)
    → let verdict = evaluate site latest n.entity in
      lookup
          (observation_id verdict)
          (project_event (recorded_event random_id now stamp meta verdict) g).1.entities
        ≡ some o
      → lookup (pair_key site.id n.entity.id) compliance ≡ some o
      → (is_compliance o ≡ true)
        × (key_of o ≡ pair_key site.id n.entity.id)
        × ((drift_of_site compliance site (n ∷ []) ≡ []) ↔ (verdict.compliant ≡ true))
unfolding key_of drift_of_site evaluate template
recorded_drift random_id now stamp meta g site n latest o compliance stored found =
    let verdict = evaluate site latest n.entity in
    let (metric, subject, version, value) =
      recorded_fields random_id now stamp meta verdict g o stored in
    (
      ap (λ v. is_text v "standard.compliance") metric,
      ap (λ v. pair_key (template v) (template (get "standard_version_id" o.document))) subject
          ∙ ap (λ v. pair_key site.id (template v)) version,
      by_verdict site n.entity.id o (lookup (pair_key site.id n.entity.id) compliance)
          verdict.compliant found (ap is_one value ∙ of_bool verdict.compliant),
    )
  where
    of_bool : (b : Bool) → is_one (num (pos (if b then 1 else 0))) ≡ b
    of_bool true = refl
    of_bool false = refl
