-- ===== src/Controller.antt =====
-- The factory (src/controller): a tick that starts builds of the best ideas, and the emissions of the
-- control plane.
pub mod Candidates
pub mod Factory
pub mod Capacity
pub mod Plane
mod Tests
