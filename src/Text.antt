-- ===== src/Text.antt =====
-- Rust's `&str` and `String` as lists of code points, and the methods of the standard library
-- that the program calls.
pub mod Chars
pub mod Strings
pub mod Trim
pub mod Lines
pub mod Replace
pub mod Runs
