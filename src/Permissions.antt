-- ===== src/Permissions.antt =====
-- The permission engine: crates/core/src/permissions.
pub mod Types
pub mod Command
pub mod External
pub mod Rule
pub mod Layer
pub mod Builtins
pub mod Append
pub mod Evaluate
pub mod Suggest
pub mod Engine
pub mod Decide
pub mod Broker
mod Tests
