-- ===== src/Sync.antt =====
-- crates/mkb-core/src/sync.rs: the engine that keeps vault, index, hashes and files together.
pub mod Host
pub mod Files
pub mod Assets
pub mod Exec
pub mod Engine
