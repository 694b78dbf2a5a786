-- ===== src/Queue/Checker.antt =====
-- daemon/queue/checker.go: whether a pull request may be merged.
pub mod Approvals
pub mod Checklist
pub mod Pattern
pub mod Paths
pub mod Gates
pub mod Verdict
pub mod Ready
pub mod Merge
pub mod Tests
