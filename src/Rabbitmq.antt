-- ===== src/Rabbitmq.antt =====
-- src/rabbitmq/rabbitmq.service.ts: the broker's client. `Service` publishes and consumes, `Topology`
-- is its start.
mod Service
pub mod Topology
mod Stop
unfoldable pub use Service.*
