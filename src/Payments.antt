-- ===== src/Payments.antt =====
-- src/payments-service/payments.service.ts: payment records, idempotency stores and the gate for
-- simulated outages. `Defs` has the types and operations, the other children what they satisfy.
mod Defs
pub mod Calls
pub mod Idempotency
pub mod Plain
pub mod Refinement
pub mod Lifecycle
pub mod Outcomes
pub mod Transient
pub mod Controller
mod Tests
unfoldable pub use Defs.*
