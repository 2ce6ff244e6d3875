-- ===== src/Ai.antt =====
-- modules/ai and infrastructure/ai: runs of the assistant, retrieval and the local model.
pub mod ChatHistory
pub mod Credentials
pub mod RunLimiter
pub mod LocalEmbedding
