-- ===== src/Consumer.antt =====
-- The consumer of the task outbox (scripts/outbox-consumer.mjs): `main` and what it reads and writes.
pub mod Brief
pub mod Loop
pub mod Open
mod Ids
mod Growth
pub mod Settled
mod Tests
