-- ===== src/Resiliency.antt =====
-- runtime/resiliency.go
pub mod Breaker
pub mod Call
pub mod Timeout
pub mod Sound
pub mod Rounds
pub mod Retries
pub mod Trips
pub mod Recovery
pub mod Interleaving
pub mod Nested
pub mod Alone
pub mod Tests
