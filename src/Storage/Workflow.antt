-- ===== src/Storage/Workflow.antt =====
-- pkg/storage/cmd_handler_workflow.go: workflow instances, and their workers on a runner.
pub mod Instance
pub mod Worker
pub mod Tenant
mod Tests
