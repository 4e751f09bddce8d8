-- ===== src/Jupiter.antt =====
-- The Jupiter side of the enclave: crates/core/src/jupiter and its routes in crates/server.
pub mod Bounds
pub mod Session
pub mod Decode
pub mod Sign
pub mod Scan
pub mod Route
