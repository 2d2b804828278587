-- ===== src/Standards/Recorded.antt =====
-- What the graph has of a verdict once it is recorded: `recordCompliance` (src/standards/conformance.js)
-- calls `observe` (src/controller/control-plane.js), whose event the projector
-- (src/event/projector.js) stores as an observation.
use mathlib.Core.Option.{some-injective}
use mathlib.Core.Bool.{Bool, false≢true}
use Prim.Native.Char.{Char}
use text.Mathlib.TextLemmas.{cons-append}
use finalbuilds.Prelude.{
  String, true, false, Option, none, some, [], ◌∷◌, ◌≡◌, refl, sym, ap, ◌∙◌, inl, inr, ◌==◌,
  eq-cases, eq_refl, Option-cases, if◌then◌else◌,
}
use finalbuilds.Prelude.Int.{pos}
use finalbuilds.Prelude.Text.{◌<+>◌}
use finalbuilds.Prelude.Dict.{lookup}
use finalbuilds.Prelude.Exec.{
  ok, pure, ◌>>◌, bind_ok, Preserves, Preserves-pure, Preserves-then, Preserves-when,
}
use finalbuilds.Model.Value.{Value, Document, undefined, num, str, get, truthy}
use finalbuilds.Model.EntityType
use finalbuilds.Model.RelKind
use finalbuilds.Graph.InMemory.{
  Graph, Entity, EntityInput, id_of, upsert_entity, link, connect, present,
}
use finalbuilds.Graph.Upsert.{document_of, last_of, or_else, upsert_entity_stores}
use finalbuilds.Event.Log.{Event, Stamp, event_of}
use finalbuilds.Event.Projector.{
  project_event, cases, on_observation, put, join, join_if, stamped, field,
}
use finalbuilds.Controller.Plane.{observe, emission_of}
use finalbuilds.Standards.Conformance.{Result, plain_id, observation_of}

-- The id under which the observation of a result is stored.
abbrev pub observation_id : Result → String
observation_id r = plain_id ("obs_conf_" <+> (r.site_id <+> ("_" <+> r.standard_version_id)))

-- The event that `observe` emits for a result.
abbrev pub recorded_event : (String → String) → String → Stamp → Document → Result → Event
recorded_event random_id now stamp meta r =
    let (type, payload) = emission_of random_id now (observe (observation_of r)) in
    event_of stamp type payload meta

-- The entity of an id stays as it is.
abbrev Holds : String → Option Entity → Graph → Type 0
Holds id o g = lookup id g.entities ≡ o

module _ (id : String) (o : Option Entity) where
  link-Holds :
      (from : Value) (kind : String) (to : Value) (props : Document)
      → Preserves (Holds id o) (link from kind to props)
  unfolding link connect
  link-Holds from kind to props = record {
    keep = λ g h. elim (Option-cases (present g from)) [
      | inl no_from ↦ rw (link, no_from) h
      | inr (a, ha) ↦ elim (Option-cases (present g to)) [
        | inl no_to ↦ rw (link, ha, no_to) h
        | inr (b, hb) ↦ rw (link, ha, hb) h
      ]
    ];
  }

  join_if-Holds :
      (v from : Value) (kind : String) (to : Value) (time : String)
      → Preserves (Holds id o) (join_if v from kind to time)
  unfolding join_if join
  join_if-Holds v from kind to time =
      Preserves-when (truthy v) _
        (Preserves-then _ _ (link-Holds from kind to (("at", str time) ∷ [])) (Preserves-pure tt))

-- The input of an observation's upsert.
abbrev input_of : Event → EntityInput
input_of e = record {
  id = field "id" e;
  type = EntityType.observation;
  name = some (field "metric" e);
  document = stamped "ingested_at" e;
}

-- An observation with an id is stored whether or not the links to it can be made: its document is the
-- event's payload with the time of the event, over the older document.
observation_stored :
    (e : Event) (id : String) (g : Graph)
    → id_of (field "id" e) ≡ some id
    → (o : Entity) × (lookup id (on_observation e g).1.entities ≡ some o)
      × ((k : String)
          → lookup k o.document
            ≡ or_else (last_of k (stamped "ingested_at" e)) (lookup k (document_of id g)))
unfolding on_observation put
observation_stored e id g known =
    let h = (upsert_entity (input_of e) g).1 in
    let (o, returned, _, _, _, fields, stored, _) =
      upsert_entity_stores (input_of e) id known refl g in
    let rest =
      join_if (field "sensor_id" e) (field "sensor_id" e) RelKind.observed (field "id" e) e.time
      >> (join_if (field "subject_id" e) (field "subject_id" e) RelKind.observed_by (field "id" e)
            e.time
          >> join_if (field "experiment_id" e) (field "experiment_id" e) RelKind.measures
              (field "id" e) e.time) in
    let kept : Preserves (Holds id (some o)) rest =
      Preserves-then _ _ (join_if-Holds id (some o) _ _ _ _ _) (
        Preserves-then _ _ (join_if-Holds id (some o) _ _ _ _ _)
          (join_if-Holds id (some o) _ _ _ _ _)) in
    let stores =
      put (field "id" e) EntityType.observation (field "metric" e) (stamped "ingested_at" e) in
    let wrote : stores g ≡ (ok tt, h) =
      bind_ok (upsert_entity (input_of e)) (λ _. pure tt) g o h (λ i. (returned i, h)) in
    (
      o,
      ap (λ p. lookup id p.1.entities) (bind_ok stores (λ _. rest) g tt h wrote)
          ∙ kept.keep h (stored id ∙ rw (eq_refl id) refl),
      fields,
    )

abbrev has_letter : String → Bool
has_letter String.[] = false
has_letter (String.◌∷◌ c s) = true

with_letter : (c : Char) (s : String) → (String.◌∷◌ c s == "") ≡ false
with_letter c s = elim (eq-cases (String.◌∷◌ c s) "") [
  | inl (same, test) ↦ absurd (false≢true (sym (ap has_letter same)))
  | inr (differ, test) ↦ test
]

abbrev value_or_undefined : Option Value → Value
value_or_undefined none = undefined
value_or_undefined (some v) = v

module _ (random_id : String → String) (now : String) (stamp : Stamp) (meta : Document) where
  observation_id-filled : (r : Result) → (observation_id r == "") ≡ false
  observation_id-filled r =
      ap (λ s. plain_id s == "")
        (cons-append "o" "bs_conf_" (r.site_id <+> ("_" <+> r.standard_version_id)))
      ∙ with_letter "o" (plain_id ("bs_conf_" <+> (r.site_id <+> ("_" <+> r.standard_version_id))))

  -- The projection of the event of a result stores an entity under the result's id that has the
  -- fields by which the reconciler knows it.
  pub recorded_fields :
      (r : Result) (g : Graph) (o : Entity)
      → lookup
          (observation_id r)
          (project_event (recorded_event random_id now stamp meta r) g).1.entities
        ≡ some o
      → (get "metric" o.document ≡ str "standard.compliance")
        × (get "subject_id" o.document ≡ str r.site_id)
        × (get "standard_version_id" o.document ≡ str r.standard_version_id)
        × (get "value" o.document ≡ num (pos (if r.compliant then 1 else 0)))
  unfolding project_event cases emission_of observation_of
  recorded_fields r g o there =
      let e = recorded_event random_id now stamp meta r in
      let (u, stored, fields) =
        observation_stored e (observation_id r) g (rw (observation_id-filled r) refl) in
      let same : u ≡ o = some-injective u o (sym stored ∙ there) in
      let read = λ (k : String). ap (λ (d : Entity). get k d.document) (sym same) in
      (
        read "metric" ∙ ap value_or_undefined (fields "metric"),
        read "subject_id" ∙ ap value_or_undefined (fields "subject_id"),
        read "standard_version_id" ∙ ap value_or_undefined (fields "standard_version_id"),
        read "value" ∙ ap value_or_undefined (fields "value"),
      )
