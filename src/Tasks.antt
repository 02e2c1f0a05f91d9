-- ===== src/Tasks.antt =====
-- internal/tasks: the tasks that people do on the steps of a case.
pub mod Paths
pub mod Forms
pub mod Lifecycle
pub mod Completion
pub mod Sla
mod Tests
