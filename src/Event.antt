-- ===== src/Event.antt =====
-- The append-only event log, its projection into the graph, and the bus that joins them (src/event).
pub mod Log
pub mod Projector
pub mod Bus
pub mod Lock
pub mod R2
pub mod LocalR2
pub mod Artifacts
pub mod Intact
mod StoreTests
mod Tests
