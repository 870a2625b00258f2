-- ===== src/Scopes.antt =====
-- compiler/symbol_table.go
pub mod Table
pub mod Heap
pub mod Lookup
pub mod Fresh
pub mod Declared
pub mod Tests
