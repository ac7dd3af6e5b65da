-- ===== src/Blockfile.antt =====
-- crates/mkb-core/src/blockfile.rs: block files, `blocks/<ulid>.md`.
pub mod Scalar
pub mod Keys
pub mod Write
pub mod Frontmatter
pub mod Read
pub mod Code
pub mod Parse
pub mod RoundTrip
pub mod Runs
