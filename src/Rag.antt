-- ===== src/Rag.antt =====
-- modules/ai/rag
pub mod Indexer
pub mod Chunking
pub mod Search
