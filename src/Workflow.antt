-- ===== src/Workflow.antt =====
-- From a policy decision over an approved request to its execution: services/policy,
-- services/action_request, services/action_execution and services/notifications.
pub mod Model
pub mod Store
pub mod Policy
pub mod Notification
pub mod ActionRequest
pub mod Audit
pub mod Execution
pub mod Simulator
