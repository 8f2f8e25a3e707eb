-- ===== src/Realtime.antt =====
-- src/realtime/orders.gateway.ts: sockets that follow orders. `Gateway` has the handlers, `RateLimit` and
-- `Rooms` what they guarantee.
mod Gateway
pub mod RateLimit
pub mod Rooms
pub mod Login
mod Tests
unfoldable pub use Gateway.*
