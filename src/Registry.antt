-- ===== src/Registry.antt =====
-- The registry of capabilities (src/registry/capability-registry.js).
pub mod Capabilities
pub mod Listed
mod Tests
