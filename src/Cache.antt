-- ===== src/Cache.antt =====
-- The local cache of runtime/cache.go and the mocks of runtime/mock.go
pub mod Local
pub mod Lookup
mod Tests
