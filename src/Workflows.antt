-- ===== src/Workflows.antt =====
-- internal/workflows/validation.go and publish_validation.go: what a workflow must be before it is
-- saved and before it is published.
pub mod Config
pub mod Draft
pub mod Graph
pub mod Publish
pub mod Accepted
mod Tests
