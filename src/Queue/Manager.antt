-- ===== src/Queue/Manager.antt =====
-- daemon/queue/manager.go: the merge queue.
pub mod Method
pub mod Merge
pub mod Admit
pub mod Cycle
pub mod Recover
pub mod Listing
pub mod Filed
pub mod Run
pub mod Tests
