-- ===== src/Std.antt =====
-- The parts of Rust's standard library that the program uses.
pub mod Paths
pub mod Utf8
pub mod Chars
pub mod Numbers
