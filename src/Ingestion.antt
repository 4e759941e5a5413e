-- ===== src/Ingestion.antt =====
-- The ingestion of documents (internal/ingestion): the splitter of texts into sentences, and the chunker
-- that groups sentences.
pub mod Splitter
pub mod Chunker
mod Scenarios
