-- ===== src/Tests.antt =====
-- Runs of the model on sample rows, one module for each component.
pub mod Data
pub mod Commit
pub mod Approval
pub mod Capability
pub mod Harness
pub mod Dispatch
pub mod Quality
pub mod Prepare
pub mod Validation
pub mod Workflow
pub mod Supervision
pub mod Generation
