-- ===== src/Retrieval.antt =====
-- src/self_healthy_kafka/rag: how a runbook is cut into chunks for the vector store.
pub mod Chunking
pub mod Bounds
pub mod Visible
pub mod Conserved
pub mod Examples
