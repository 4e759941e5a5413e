-- ===== src/Tools.antt =====
-- internal/tools/registry and internal/agent/tool: the registry of tools, and the execution of one behind
-- the approval gate.
pub mod Registry
pub mod Execution
mod Scenarios
