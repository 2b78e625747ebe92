-- ===== src/Tools.antt =====
-- The tools of the apprentice: crates/core/src/tools.
pub mod Capture
pub mod Limits
pub mod OneLine
pub mod Transcript
pub mod Reporter
pub mod Registry
pub mod Execute
mod Tests
