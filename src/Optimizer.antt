-- ===== src/Optimizer.antt =====
-- compiler/optimizer.go
pub mod Ast
pub mod Fold
pub mod Pass
pub mod Machine
pub mod Exact
pub mod Sound
pub mod Branch
pub mod Correct
pub mod Fixed
pub mod Idem
pub mod Bounds
mod Tests
