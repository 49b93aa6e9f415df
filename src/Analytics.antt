-- ===== src/Analytics.antt =====
-- src/self_healthy_kafka/semantic: how a validated query plan becomes one parameterized SELECT.
pub mod Plan
pub mod Source
pub mod Tables
pub mod Guard
pub mod Filter
pub mod Query
pub mod Placeholders
pub mod Alike
pub mod Masked
pub mod Allowed
pub mod Examples
