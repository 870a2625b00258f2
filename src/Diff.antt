-- ===== src/Diff.antt =====
-- runtime/diff.go
pub mod Text
pub mod Common
pub mod Lines
pub mod Walk
pub mod Correct
mod Tests
