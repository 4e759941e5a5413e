-- ===== src/Retrieval.antt =====
-- internal/retrieval: the evidence for an answer. Of it, the order of the blocks.
pub mod Reorder
mod Scenarios
