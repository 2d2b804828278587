-- ===== src/Dispatch.antt =====
-- The dispatch of tasks to their transports (src/dispatch).
pub mod Router
pub mod Outbox
pub mod Machine
pub mod Once
pub mod Answers
mod Tests
