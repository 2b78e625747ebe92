-- ===== src/Workspace.antt =====
-- The workspace a session works in: crates/core/src/workspace.
pub mod Paths
mod Tests
