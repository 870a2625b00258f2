-- ===== src/Diagnostics.antt =====
-- compiler/errors.go
pub mod Distance
pub mod Scripts
pub mod Keywords
pub mod Hints
pub mod Format
pub mod Location
mod Tests
