-- ===== src/Runtime.antt =====
-- The agent runtime: crates/core/src/runtime.
pub mod Conversation
pub mod Ledger
pub mod Agent
mod Tests
