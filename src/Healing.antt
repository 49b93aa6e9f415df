-- ===== src/Healing.antt =====
-- src/self_healthy_kafka/healing: the recovery actions and the state machine that chooses them.
pub mod Summary
pub mod Helpers
pub mod Restart
pub mod Escalation
pub mod Failure
pub mod Recreate
pub mod Retry
pub mod Fresh
pub mod HealingDoes
pub mod Protocol
