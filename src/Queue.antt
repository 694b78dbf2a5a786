-- ===== src/Queue.antt =====
-- The package daemon/queue: the merge queue and the checks that a pull request has to pass.
pub mod Expr
pub mod World
pub mod Check
pub mod Checker
pub mod Store
pub mod Manager
pub mod Serial
pub mod Pending
pub mod Samples
