-- ===== src/Ingest/Keeps.antt =====
-- What a call of `ingest` (src/events/canonical-ingestor.js) keeps of the store, and what a second
-- call on the same event finds.
use mathlib.Core.Option.{some-injective, none-ne-some}
use finalbuilds.Prelude.{
  String, true, false, ◌≡◌, refl, sym, ap, ◌∙◌, subst, some, List, [], ◌∷◌, eq_refl, In,
}
use finalbuilds.Prelude.Text.{◌<+>◌}
use finalbuilds.Model.Value.{Document, get, prop, str}
use finalbuilds.Contract.Validate.{is_system, validate_event_unknown}
use finalbuilds.Ingest.Store.{IsJsonDocument}
use finalbuilds.Ingest.Ingestor.{
  Environment, World, Verdict, IngestResult, is_accepted, answer, accept, settle, after_validation,
  ingest,
}
use finalbuilds.Ingest.Laws.{IsStored, Ending, ingest_ends, ingest_settles}

module _ (env : Environment) where
  open env use {store, stringify, now, has_checkpoint}
  open store use {get_by_id, append_envelope, IsValid, append-IsValid, append-self, append-other}

  events-accept :
      (event : Document) (w : World env)
      → (accept env event w).1.events ≡ append_envelope event w.events
  unfolding accept
  events-accept event w = refl

  -- A call with a JSON object leaves a valid store valid.
  pub ingest-IsValid :
      (event : Document) (w : World env)
      → IsValid w.events
      → IsJsonDocument event
      → IsValid (ingest env event w).1.events
  ingest-IsValid event w valid is_json = elim (ingest_ends env event w) [
    | Ending.throws e ↦ rw (e) valid
    | Ending.rejects r is_no e ↦ rw (e) valid
    | Ending.repeats id held e ↦ rw (e) valid
    | Ending.adds id sound absent e ↦
        rw (e, events-accept event w)
          (append-IsValid id event w.events valid is_json sound.names absent)
  ]

  -- What a valid store has under an id it still has, unchanged, after a call with any JSON object.
  pub ingest_keeps :
      (event : Document) (w : World env) (other : String) (old : Document)
      → IsValid w.events
      → IsJsonDocument event
      → get_by_id other w.events ≡ some (some old)
      → get_by_id other (ingest env event w).1.events ≡ some (some old)
  ingest_keeps event w other old valid is_json found = elim (ingest_ends env event w) [
    | Ending.throws e ↦ rw (e) found
    | Ending.rejects r is_no e ↦ rw (e) found
    | Ending.repeats id held e ↦ rw (e) found
    | Ending.adds id sound absent e ↦
        rw (e, events-accept event w)
          (append-other id other event w.events valid is_json sound.names (λ same.
              none-ne-some old (
                some-injective _ _ (
                  sym absent
                  ∙ (subst (λ x. get_by_id x w.events ≡ some (some old)) (sym same) found))))
            ∙ found)
  ]

  -- A call that accepts an event leaves it in the store.
  pub ingest-IsStored :
      (event : Document) (w : World env) (r : IngestResult)
      → IsValid w.events
      → IsJsonDocument event
      → (ingest env event w).0 ≡ some r
      → is_accepted r.verdict ≡ true
      → (id : String) × IsStored env event id (ingest env event w).1
  ingest-IsStored event w r valid is_json returns is_yes = elim (ingest_ends env event w) [
    | Ending.throws e ↦ absurd (none-ne-some r (sym (ap (λ p. p.0) e) ∙ returns))
    | Ending.rejects q is_no e ↦
        absurd (refused q is_no (some-injective _ _ (sym (ap (λ p. p.0) e) ∙ returns)))
    | Ending.repeats id held e ↦ (id, subst (IsStored env event id) (sym (ap (λ p. p.1) e)) held)
    | Ending.adds id sound absent e ↦ (
      id,
      subst (IsStored env event id) (sym (ap (λ p. p.1) e)) (record {
        sound = sound;
        existing = event;
        found =
            rw (events-accept event w)
              (append-self id event w.events valid is_json sound.names absent);
        same = refl;
      }),
    )
  ]
    where
      refused : (q : IngestResult) → is_accepted q.verdict ≡ false → q ≡ r → ⊥
      refused q is_no same = cc

  -- An event the store has is answered as a duplicate, and nothing changes.
  pub IsStored-repeats :
      (event : Document) (id : String) (w : World env)
      → IsStored env event id w
      → ingest env event w ≡ (some (answer env event Verdict.duplicate), w)
  unfolding settle
  IsStored-repeats event id w held =
      ingest_settles env event id w (some held.existing) held.sound held.found
      ∙ rw (settle, held.same, eq_refl (stringify event))

  -- On a valid store, a call that accepts a JSON object, new or not, makes the next call with it a
  -- duplicate that changes nothing.
  pub ingest_again :
      (event : Document) (w : World env) (r : IngestResult)
      → IsValid w.events
      → IsJsonDocument event
      → (ingest env event w).0 ≡ some r
      → is_accepted r.verdict ≡ true
      → ingest env event (ingest env event w).1
        ≡ (some (answer env event Verdict.duplicate), (ingest env event w).1)
  ingest_again event w r valid is_json returns is_yes =
      let (id, held) = ingest-IsStored event w r valid is_json returns is_yes in
      IsStored-repeats event id (ingest env event w).1 held

  -- A call whose answer is not `accepted` changes nothing.
  pub ingest_refused :
      (event : Document) (w : World env) (r : IngestResult)
      → (ingest env event w).0 ≡ some r
      → is_accepted r.verdict ≡ false
      → (ingest env event w).1 ≡ w
  ingest_refused event w r returns is_no = elim (ingest_ends env event w) [
    | Ending.throws e ↦ ap (λ p. p.1) e
    | Ending.rejects q n e ↦ ap (λ p. p.1) e
    | Ending.repeats id held e ↦ ap (λ p. p.1) e
    | Ending.adds id sound absent e ↦
        absurd (taken (some-injective _ _ (sym (ap (λ p. p.0) e) ∙ returns)))
  ]
    where
      taken : answer env event (Verdict.ingested (accept env event w).0) ≡ r → ⊥
      taken same = cc

  -- An event from a system that the contract does not list is refused with an error that says so,
  -- and nothing changes.
  ingest_unknown_system :
      (event : Document) (system : String) (w : World env)
      → prop "system" (get "source" event) ≡ str system
      → is_system system ≡ false
      → (errors : List String) × (ingest env event w
          ≡ (some (answer env event (Verdict.invalid_envelope errors)), w))
        × In ("invalid source.system: " <+> system) errors
  unfolding ingest
  ingest_unknown_system event system w named unknown =
      let (errors, valid, listed) = validate_event_unknown event system named unknown in
      (errors, rw (ingest, valid) (after_errors errors listed), listed)
    where
      after_errors :
          (errors : List String)
          → In ("invalid source.system: " <+> system) errors
          → after_validation env event errors w
            ≡ (some (answer env event (Verdict.invalid_envelope errors)), w)
      after_errors [] none_listed = absurd none_listed
      after_errors (x ∷ errors) listed = refl
