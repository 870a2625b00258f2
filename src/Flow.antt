-- ===== src/Flow.antt =====
-- compiler/analyze_flow.go
pub mod Tree
pub mod Analysis
pub mod Runs
pub mod Returns
pub mod DeadCode
pub mod CutRuns
pub mod Tests
