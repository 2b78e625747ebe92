-- ===== src/Mentor.antt =====
-- The mentor adapter: crates/core/src/mentor.
pub mod Types
pub mod Sse
pub mod Assemble
pub mod Error
pub mod Client
mod Tests
