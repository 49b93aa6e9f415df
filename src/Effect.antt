-- ===== src/Effect.antt =====
-- Actions of the engine: they change the world, return a value or raise, and consult an
-- environment that stands for what is not in the repository (the HTTP library and Kafka Connect
-- behind it, SQL Server's failures, the clocks, `newid()`), and for redaction.py.
pub mod Exn
pub mod World
pub mod Monad
pub mod Does
pub mod Keeps
pub mod Follows
