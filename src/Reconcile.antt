-- ===== src/Reconcile.antt =====
-- The drift between the standards that sites desire and what was observed of them
-- (src/reconcile/reconciler.js).
pub mod Order
pub mod Drift
pub mod Latest
mod Tests
