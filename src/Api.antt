-- ===== src/Api.antt =====
-- The protocol: crates/api/src.
pub mod Codec
