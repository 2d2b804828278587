-- ===== src/Hydra.antt =====
-- The statements that a canonical event becomes for the Hydra graph (src/graph/hydradb).
pub mod Cypher
pub mod Quoting
pub mod Projector
pub mod Schema
pub mod Prefixes
pub mod Executor
pub mod Accounts
mod Tests
