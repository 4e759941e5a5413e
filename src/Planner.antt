-- ===== src/Planner.antt =====
-- internal/agent/planner: the plan for a request, from keywords or from a language model, under the
-- policy of the tenant.
pub mod Types
pub mod Policy
pub mod Validation
pub mod Keywords
pub mod Plan
pub mod Merged
pub mod Approvals
mod Scenarios
