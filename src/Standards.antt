-- ===== src/Standards.antt =====
-- The conformance of sites with the standards they desire (src/standards/conformance.js).
pub mod Conformance
pub mod Recorded
pub mod Verdict
mod Tests
