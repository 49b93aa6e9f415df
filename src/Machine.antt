-- ===== src/Machine.antt =====
-- `ConnectorStateMachine` of src/self_healthy_kafka/healing/db_state_machine.py.
pub mod Memory
pub mod Healthy
pub mod Dispatch
pub mod Unhealthy
pub mod Process
pub mod Discovery
pub mod MachineDoes
pub mod ProcessDoes
pub mod DiscoveryDoes
pub mod Gate
pub mod Quarantine
pub mod Quiet
pub mod Missing
