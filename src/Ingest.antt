-- ===== src/Ingest.antt =====
-- The canonical ingestion path (src/events): the ingestor over an event store, a projector, a graph
-- and a checkpoint store.
pub mod Store
pub mod Checkpoint
pub mod Ingestor
pub mod Laws
pub mod Keeps
pub mod Batch
pub mod Batches
pub mod Jsonl
mod Tests
