-- ===== src/Blockfile/RoundTrip.antt =====
-- What `write_block` writes is what the readers of blockfile.rs read.
pub mod Entries
pub mod Shape
pub mod Fields
pub mod Tags
pub mod Props
pub mod Written
pub mod Readers
pub mod Blocks
