-- ===== src/Config.antt =====
-- The configuration: crates/core/src/config.
pub mod Keypath
mod Tests
