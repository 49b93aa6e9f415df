-- ===== src/Webhook.antt =====
-- src/self_healthy_kafka/webhook: the receiver of Grafana's alerts, its authentication, its
-- deduplication, the queue of events, the workers and the follow-ups, and the routes of its HTTP
-- handler.
pub mod Config
pub mod Auth
pub mod Signature
pub mod Dedupe
pub mod Claims
pub mod Alerts
pub mod Followups
pub mod Service
pub mod Steps
pub mod Settled
pub mod Timers
pub mod Numbers
pub mod Registered
pub mod Sound
pub mod Reach
pub mod Quiet
pub mod Alone
pub mod Parsed
pub mod Receipts
pub mod Worker
pub mod Scheduled
pub mod Drain
pub mod Http
pub mod Routes
pub mod Guarded
pub mod Examples
