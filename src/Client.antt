-- ===== src/Client.antt =====
-- src/self_healthy_kafka/connect/client.py: the REST client, with its circuit breaker on status
-- requests, and `ConnectorStatus.from_api_response` of domain/models.py.
pub mod Payload
pub mod Circuit
pub mod Rest
pub mod RestDoes
pub mod Breaker
