-- ===== src/Planner.antt =====
-- The choice of the ideas to build (src/planner).
pub mod Select
pub mod Best
mod Tests
