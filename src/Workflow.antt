-- ===== src/Workflow.antt =====
-- daemon/workflow: one run of labels, merge and close by conditions, in continuous integration.
pub mod Expression
pub mod Settings
pub mod Context
pub mod Executor
pub mod Total
pub mod Tests
