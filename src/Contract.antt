-- ===== src/Contract.antt =====
-- The foundry event contract (contracts/index.js): the names it fixes, the envelope's validation and
-- creation, and the classes of failures.
pub mod Letters
pub mod Names
pub mod Validate
pub mod Classify
pub mod Create
mod Tests
