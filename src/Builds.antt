-- ===== src/Builds.antt =====
-- Builds: their blueprints (src/ideas/blueprint-compiler.js and src/dispatch/agentbuild-dispatcher.js),
-- the dispatcher that runs them and their receipts (src/receipt/receipt-v2.js).
pub mod Blueprint
pub mod Compiler
pub mod Agent
pub mod Workorder
pub mod Receipt
mod Tests
