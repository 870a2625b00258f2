-- ===== src/Semver.antt =====
-- runtime/semver.go
pub mod Version
pub mod Order
pub mod Ranges
pub mod RoundTrip
pub mod Tests
