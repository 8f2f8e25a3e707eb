-- ===== src/Worker.antt =====
-- src/orders-worker/orders-worker.service.ts: the consumer of `orders.process`, with its retries.
mod Defs
pub mod Backoff
pub mod Settlement
pub mod Rounds
pub mod Pipeline
mod Tests
unfoldable pub use Defs.*
