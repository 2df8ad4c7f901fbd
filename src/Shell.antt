-- ===== src/Shell.antt =====
-- pisshoff-server/src/subsystem/shell.rs and subsystem/shell/parser.rs.
pub mod Parts
pub mod Iter
pub mod Tokens
mod Tests
mod Runs
pub mod Weights
pub mod Executing
pub mod Machine
