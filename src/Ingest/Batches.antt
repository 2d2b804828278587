-- ===== src/Ingest/Batches.antt =====
-- What `ingestBatch` (src/events/canonical-ingestor.js) reports, and what the same batch gives when
-- it is sent again.
use mathlib.Core.Option.{some-injective, none-ne-some}
use mathlib.Core.List.{cons≢nil}
use finalbuilds.Prelude.{
  ℕ, suc, ◌+◌, arith, length, All, String, true, ◌≡◌, refl, sym, ap, ◌∙◌, subst, inl, inr, some,
  List, [], ◌∷◌, Bool-cases, Option-cases, map,
}
use finalbuilds.Model.Value.{Document, get}
use finalbuilds.Ingest.Store.{IsJsonDocument}
use finalbuilds.Ingest.Ingestor.{
  Environment, World, Verdict, IngestResult, is_accepted, answer, ingest,
}
use finalbuilds.Ingest.Batch.{Report, report_of, ingest_each, ingest_batch}
use finalbuilds.Ingest.Laws.{IsStored}
use finalbuilds.Ingest.Keeps.{ingest-IsValid, ingest_keeps, ingest-IsStored, IsStored-repeats}

-- The number of entries of a report.
abbrev pub entries_of : Report → ℕ
entries_of report = length report.accepted + (length report.duplicate + length report.rejected)

sorts_one :
    (r : IngestResult) (results : List IngestResult) (v : Verdict)
    → r.verdict ≡ v
    → entries_of (report_of results) ≡ length results
    → entries_of (report_of (r ∷ results)) ≡ suc (length results)
unfolding report_of
sorts_one r results (Verdict.invalid_envelope errors) e before = rw (e) (omega arith)
sorts_one r results Verdict.payload_hash_mismatch e before = rw (e) (omega arith)
sorts_one r results Verdict.event_id_conflict e before = rw (e) (omega arith)
sorts_one r results Verdict.duplicate e before = rw (e) (omega arith)
sorts_one r results (Verdict.ingested p) e before = rw (e) (omega arith)

report_of_sorts : (results : List IngestResult) → entries_of (report_of results) ≡ length results
unfolding report_of
report_of_sorts [] = refl
report_of_sorts (r ∷ results) = sorts_one r results r.verdict refl (report_of_sorts results)

All-accepted_of :
    (results : List IngestResult)
    → (report_of results).rejected ≡ []
    → All (λ r. is_accepted r.verdict ≡ true) results
unfolding report_of
All-accepted_of [] e = tt
All-accepted_of (r ∷ results) e = elim (Bool-cases (is_accepted r.verdict)) [
  | inl is_yes ↦
      let rest : (report_of results).rejected ≡ [] = sym (rw (is_yes)) ∙ e in
      (is_yes, All-accepted_of results rest)
  | inr is_no ↦
      let whole : (r.event_id, r.verdict) ∷ (report_of results).rejected ≡ [] =
        sym (rw (is_no)) ∙ e in
      absurd (cons≢nil whole)
]

-- The report that finds every event a duplicate.
abbrev pub all_duplicates : List Document → Report
all_duplicates events = record {
  accepted = [];
  duplicate = map (get "event_id") events;
  rejected = [];
}

report_of_duplicates :
    (env : Environment) (events : List Document)
    → report_of (map (λ event. answer env event Verdict.duplicate) events) ≡ all_duplicates events
unfolding report_of
report_of_duplicates env [] = refl
report_of_duplicates env (event ∷ events) =
    ap (λ (p : Report). record (p) { duplicate = get "event_id" event ∷ p.duplicate })
      (report_of_duplicates env events)

module _ (env : Environment) where
  open env use {store}
  open store use {get_by_id, IsValid}

  -- The first call of a batch that returns, and the rest of it.
  record Split (event : Document) (events : List Document) (w : World env)
      (results : List IngestResult) : Type 0 where
    first : IngestResult
    rest : List IngestResult
    first_returns : (ingest env event w).0 ≡ some first
    rest_return : (ingest_each env events (ingest env event w).1).0 ≡ some rest
    joined : first ∷ rest ≡ results

  split :
      (event : Document) (events : List Document) (w : World env) (results : List IngestResult)
      → (ingest_each env (event ∷ events) w).0 ≡ some results
      → Split event events w results
  unfolding ingest_each
  split event events w results e = elim (Option-cases (ingest env event w).0) [
    | inl nothing ↦ absurd (none-ne-some results (sym (rw (ingest_each, nothing)) ∙ e))
    | inr (r, returns) ↦ elim (Option-cases (ingest_each env events (ingest env event w).1).0) [
      | inl nothing ↦ absurd (none-ne-some results (sym (rw (ingest_each, returns, nothing)) ∙ e))
      | inr (rs, return) ↦ record {
        first = r;
        rest = rs;
        first_returns = returns;
        rest_return = return;
        joined = some-injective _ _ (sym (rw (ingest_each, returns, return)) ∙ e);
      }
    ]
  ]

  world-Split :
      (event : Document) (events : List Document) (w : World env) (results : List IngestResult)
      → Split event events w results
      → (ingest_each env (event ∷ events) w).1 ≡ (ingest_each env events (ingest env event w).1).1
  unfolding ingest_each
  world-Split event events w results s = rw (ingest_each, s.first_returns, s.rest_return)

  results-length :
      (events : List Document) (w : World env) (results : List IngestResult)
      → (ingest_each env events w).0 ≡ some results
      → length results ≡ length events
  unfolding ingest_each
  results-length [] w results e = ap length (sym (some-injective _ _ e))
  results-length (event ∷ events) w results e =
      let s = split event events w results e in
      let before = results-length events (ingest env event w).1 s.rest s.rest_return in
      sym (ap length s.joined) ∙ ap suc before

  batch_cases :
      (events : List Document) (w : World env) (report : Report)
      → (ingest_batch env events w).0 ≡ some report
      → (results : List IngestResult) × ((ingest_each env events w).0 ≡ some results)
        × (report_of results ≡ report)
  unfolding ingest_batch
  batch_cases events w report e = elim (Option-cases (ingest_each env events w).0) [
    | inl nothing ↦ absurd (none-ne-some report (sym (rw (ingest_batch, nothing)) ∙ e))
    | inr (results, return) ↦
        (results, return, some-injective _ _ (sym (rw (ingest_batch, return)) ∙ e))
  ]

  -- The three lists of the report of a batch that returns have together as many entries as the batch
  -- has events.
  ingest_batch_sorts :
      (events : List Document) (w : World env) (report : Report)
      → (ingest_batch env events w).0 ≡ some report
      → entries_of report ≡ length events
  ingest_batch_sorts events w report e =
      let (results, return, made) = batch_cases events w report e in
      subst (λ p. entries_of p ≡ length events) made
        (report_of_sorts results ∙ results-length events w results return)

  each-IsValid :
      (events : List Document) (w : World env) (results : List IngestResult)
      → IsValid w.events
      → All IsJsonDocument events
      → (ingest_each env events w).0 ≡ some results
      → IsValid (ingest_each env events w).1.events
  unfolding ingest_each
  each-IsValid [] w results valid is_json e = valid
  each-IsValid (event ∷ events) w results valid (j, is_json) e =
      let s = split event events w results e in
      rw (world-Split event events w results s) (
        each-IsValid events (ingest env event w).1 s.rest (ingest-IsValid env event w valid j)
          is_json s.rest_return)

  -- What is stored stays stored while the rest of a batch runs.
  each_keeps :
      (events : List Document) (w : World env) (results : List IngestResult) (event : Document)
      (id : String)
      → IsValid w.events
      → All IsJsonDocument events
      → (ingest_each env events w).0 ≡ some results
      → IsStored env event id w
      → IsStored env event id (ingest_each env events w).1
  unfolding ingest_each
  each_keeps [] w results old id valid is_json e held = held
  each_keeps (event ∷ events) w results old id valid (j, is_json) e held =
      let s = split event events w results e in
      rw (world-Split event events w results s) (
        each_keeps events (ingest env event w).1 s.rest old id (ingest-IsValid env event w valid j)
          is_json s.rest_return
          (record {
            sound = held.sound;
            existing = held.existing;
            found = ingest_keeps env event w id held.existing valid j held.found;
            same = held.same;
          }))

  each-IsStored :
      (events : List Document) (w : World env) (results : List IngestResult)
      → IsValid w.events
      → All IsJsonDocument events
      → (ingest_each env events w).0 ≡ some results
      → All (λ r. is_accepted r.verdict ≡ true) results
      → All (λ event. (id : String) × IsStored env event id (ingest_each env events w).1) events
  unfolding ingest_each
  each-IsStored [] w results valid is_json e all_accepted = tt
  each-IsStored (event ∷ events) w results valid (j, is_json) e all_accepted =
      let s = split event events w results e in
      let (a, rest_accepted) =
        subst (All (λ r. is_accepted r.verdict ≡ true)) (sym s.joined) all_accepted in
      let (id, held) = ingest-IsStored env event w s.first valid j s.first_returns a in
      let after = ingest-IsValid env event w valid j in
      subst (λ u. All (λ x. (i : String) × IsStored env x i u) (event ∷ events))
        (sym (world-Split event events w results s))
        (
          (
            id,
            each_keeps events (ingest env event w).1 s.rest event id after is_json s.rest_return
                held,
          ),
          each-IsStored events (ingest env event w).1 s.rest after is_json s.rest_return
              rest_accepted,
        )

  stored_each :
      (events : List Document) (w : World env)
      → All (λ event. (id : String) × IsStored env event id w) events
      → ingest_each env events w
        ≡ (some (map (λ event. answer env event Verdict.duplicate) events), w)
  unfolding ingest_each
  stored_each [] w all_stored = refl
  stored_each (event ∷ events) w ((id, held), all_stored) =
      let first = IsStored-repeats env event id w held in
      let rest = stored_each events w all_stored in
      rw (ingest_each, first, first, rest, first, rest)

  -- A batch of JSON objects over a valid store whose report rejects nothing, sent again, is reported as duplicates only, in its order,
  -- and changes nothing.
  pub ingest_batch_again :
      (events : List Document) (w : World env) (report : Report)
      → IsValid w.events
      → All IsJsonDocument events
      → (ingest_batch env events w).0 ≡ some report
      → report.rejected ≡ []
      → ingest_batch env events (ingest_batch env events w).1
        ≡ (some (all_duplicates events), (ingest_batch env events w).1)
  unfolding ingest_batch
  ingest_batch_again events w report valid is_json e none_rejected =
      let (results, return, made) = batch_cases events w report e in
      let all_accepted = All-accepted_of results (ap (λ p. p.rejected) made ∙ none_rejected) in
      let all_stored = each-IsStored events w results valid is_json return all_accepted in
      let again = stored_each events (ingest_each env events w).1 all_stored in
      let world : (ingest_batch env events w).1 ≡ (ingest_each env events w).1 =
        rw (ingest_batch, return) in
      subst (λ u. ingest_batch env events u ≡ (some (all_duplicates events), u)) (sym world)
        (rw (ingest_batch, again, again, report_of_duplicates env events))
