-- ===== src/Eval.antt =====
-- The evaluation of answers (internal/eval): the store in memory, the services of cases, datasets, runs
-- and reports over it, and the worker that executes the runs.
pub mod Types
pub mod Store
pub mod Judge
pub mod Services
pub mod Reports
pub mod Runner
pub mod Regression
pub mod Comparison
mod Scenarios
pub mod Lifecycle
