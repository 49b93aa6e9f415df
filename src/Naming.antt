-- ===== src/Naming.antt =====
-- src/self_healthy_kafka/healing/offset_recovery.py: versioned connector names, the SCN of an
-- offsets payload, and the replacement connector's name and configuration.
pub mod Version
pub mod Sequence
pub mod Scn
pub mod Replacement
pub mod Greatest
