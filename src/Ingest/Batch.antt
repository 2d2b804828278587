-- ===== src/Ingest/Batch.antt =====
-- `CanonicalEventIngestor.ingestBatch` (src/events/canonical-ingestor.js).
use finalbuilds.Prelude.{not, ◌&&◌, Option, none, some, List, [], ◌∷◌, map, keep}
use finalbuilds.Model.Value.{Value, Document}
use finalbuilds.Ingest.Ingestor.{
  Environment, World, Verdict, IngestResult, is_accepted, is_duplicate, ingest,
}

pub record Report : Type 0 where
  pub accepted : List Value
  pub duplicate : List Value
  pub rejected : List (Value × Verdict)

-- The report of the results, by the fields `accepted` and `duplicate` of each.
unfoldable pub report_of : List IngestResult → Report
report_of results = record {
  accepted =
      map (λ r. r.event_id)
        (keep (λ r. is_accepted r.verdict && not (is_duplicate r.verdict)) results);
  duplicate = map (λ r. r.event_id) (keep (λ r. is_duplicate r.verdict) results);
  rejected = map (λ r. (r.event_id, r.verdict)) (keep (λ r. not (is_accepted r.verdict)) results);
}

module _ (env : Environment) where
  -- The loop: `none` is a throw, which ends it.
  unfoldable pub ingest_each : List Document → World env → Option (List IngestResult) × World env
  ingest_each [] w = (some [], w)
  ingest_each (event ∷ events) w =
      let later = ingest_each events (ingest env event w).1 in
      elim (ingest env event w).0 [
        | none ↦ (none, (ingest env event w).1)
        | some r ↦ elim later.0 [
          | none ↦ (none, later.1)
          | some results ↦ (some (r ∷ results), later.1)
        ]
      ]

  unfoldable pub ingest_batch : List Document → World env → Option Report × World env
  unfolding ingest_each report_of
  ingest_batch events w = elim (ingest_each events w).0 [
    | none ↦ (none, (ingest_each events w).1)
    | some results ↦ (some (report_of results), (ingest_each events w).1)
  ]
