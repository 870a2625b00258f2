-- ===== src/Workflow.antt =====
-- runtime/workflow.go
pub mod Step
pub mod Replay
mod Tests
