-- ===== src/Engine.antt =====
-- internal/engine: the workflow engine.
pub mod Types
pub mod Ast
pub mod Compute
pub mod Policy
pub mod Store
pub mod Results
pub mod Cases
pub mod Evaluate
pub mod Retry
pub mod Recovery
pub mod Pool
pub mod Sla
mod Tests
mod CaseTests
mod RetryTests
