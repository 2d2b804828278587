-- ===== src/Ingest/Laws.antt =====
-- How a call of `CanonicalEventIngestor.ingest` ends, and what it leaves in the store.
use finalbuilds.Prelude.{
  String, false, ◌≡◌, refl, inl, inr, Option, none, some, List, [], ◌∷◌, eq-cases, Bool-cases,
  Option-cases,
}
use finalbuilds.Model.Value.{Document}
use finalbuilds.Contract.Validate.{validate_event}
use finalbuilds.Ingest.Store.{id_text}
use finalbuilds.Ingest.Ingestor.{
  Environment, World, Verdict, IngestResult, is_accepted, answer, hash_fails, accept, settle,
  look_up, after_validation, ingest,
}

module _ (env : Environment) where
  open env use {store, stringify}
  open store use {get_by_id, append_envelope, IsValid}

  -- The envelope passes steps 1 and 2, and `id` is its id.
  pub record IsSound (event : Document) (id : String) : Type 0 where
    pub validates : validate_event event ≡ some []
    pub hash_holds : hash_fails env event ≡ false
    pub names : id_text event ≡ some id

  -- The store has an event of that id with the same JSON text.
  pub record IsStored (event : Document) (id : String) (w : World env) : Type 0 where
    pub sound : IsSound event id
    pub existing : Document
    pub found : get_by_id id w.events ≡ some (some existing)
    pub same : stringify existing ≡ stringify event

  -- How a call ends: it throws, refuses the event, has it already, or adds it.
  pub data Ending (event : Document) (w : World env) (run : Option IngestResult × World env)
      : Type 0 where
    throws : run ≡ (none, w) → Ending event w run
    rejects :
        (r : IngestResult) → is_accepted r.verdict ≡ false → run ≡ (some r, w) → Ending event w run
    repeats :
        (id : String)
        → IsStored event id w
        → run ≡ (some (answer env event Verdict.duplicate), w)
        → Ending event w run
    adds :
        (id : String)
        → IsSound event id
        → get_by_id id w.events ≡ some none
        → run ≡ (
          some (answer env event (Verdict.ingested (accept env event w).0)),
          (accept env event w).1,
        )
        → Ending event w run

  settle_ends :
      (event : Document) (id : String) (w : World env) (found : Option Document)
      → IsSound event id
      → get_by_id id w.events ≡ some found
      → Ending event w (some (settle env event found w).0, (settle env event found w).1)
  unfolding settle
  settle_ends event id w none sound e = Ending.adds id sound e refl
  settle_ends event id w (some existing) sound e =
      elim (eq-cases (stringify existing) (stringify event)) [
        | inl same ↦
            Ending.repeats id
              (record { sound = sound; existing = existing; found = e; same = same.0 })
              (rw (settle, same.1))
        | inr differ ↦
            Ending.rejects (answer env event Verdict.event_id_conflict) refl (rw (settle, differ.1))
      ]

  look_up_ends :
      (event : Document) (id : String) (w : World env)
      → IsSound event id
      → Ending event w (look_up env event id w)
  unfolding look_up
  look_up_ends event id w sound = elim (Option-cases (get_by_id id w.events)) [
    | inl nothing ↦ Ending.throws (rw (look_up, nothing))
    | inr (found, is_found) ↦ rw (look_up, is_found) (settle_ends event id w found sound is_found)
  ]

  checked_ends :
      (event : Document) (w : World env)
      → validate_event event ≡ some []
      → Ending event w (after_validation env event [] w)
  checked_ends event w valid = elim (Bool-cases (hash_fails env event)) [
    | inl fails ↦
        Ending.rejects (answer env event Verdict.payload_hash_mismatch) refl
          (rw (after_validation, fails))
    | inr holds ↦ elim (Option-cases (id_text event)) [
      | inl nothing ↦ Ending.throws (rw (after_validation, holds, nothing))
      | inr (id, names) ↦
          rw (after_validation, holds, names)
            (look_up_ends event id w
              (record { validates = valid; hash_holds = holds; names = names }))
    ]
  ]

  refused_ends :
      (event : Document) (errors : List String) (w : World env)
      → validate_event event ≡ some errors
      → Ending event w (after_validation env event errors w)
  refused_ends event [] w valid = checked_ends event w valid
  refused_ends event (x ∷ errors) w valid =
      Ending.rejects (answer env event (Verdict.invalid_envelope (x ∷ errors))) refl refl

  pub ingest_ends : (event : Document) (w : World env) → Ending event w (ingest env event w)
  unfolding ingest
  ingest_ends event w = elim (Option-cases (validate_event event)) [
    | inl nothing ↦ Ending.throws (rw (ingest, nothing))
    | inr (errors, valid) ↦ rw (ingest, valid) (refused_ends event errors w valid)
  ]

  -- A sound envelope whose id the store finds is settled with what it finds.
  pub ingest_settles :
      (event : Document) (id : String) (w : World env) (found : Option Document)
      → IsSound event id
      → get_by_id id w.events ≡ some found
      → ingest env event w ≡ (some (settle env event found w).0, (settle env event found w).1)
  unfolding ingest look_up
  ingest_settles event id w found sound is_found =
      rw (
        ingest, sound.validates, after_validation, sound.hash_holds, sound.names, look_up, is_found,
      )
