-- ===== src/Store.antt =====
-- The database: src/self_healthy_kafka/storage/connector_repository.py and log_repository.py, with
-- the stored procedures of sql/ingest_reference/stored-procedures that they call.
pub mod Queue
pub mod Logs
pub mod Job
pub mod StoreDoes
pub mod Closing
pub mod Once
