-- ===== src/Cases.antt =====
-- internal/case: the cases that operators follow up, their notes, and the summaries for evaluations.
pub mod Types
pub mod Order
pub mod Memory
pub mod Summaries
pub mod Service
pub mod Effects
pub mod Reuse
pub mod Closing
pub mod Lifecycle
mod Scenarios
