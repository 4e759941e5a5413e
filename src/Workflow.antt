-- ===== src/Workflow.antt =====
-- internal/workflow: promoted tasks, their store, the service and the worker's runner.
pub mod Types
pub mod Store
pub mod Memory
pub mod Service
pub mod Failure
pub mod Runner
pub mod Reports
pub mod Lifecycle
pub mod Interleaved
pub mod Anomalies
mod Scenarios
