-- ===== src/Domains.antt =====
-- The search for domain names (src/domain-search/engine.js).
pub mod Meanings
pub mod Candidates
pub mod Score
pub mod Spelling
pub mod Engine
pub mod Lookups
mod Tests
