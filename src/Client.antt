-- ===== src/Client.antt =====
-- src/orders/payments-grpc.client.ts with src/orders/errors/orders-payment.errors.ts: the API's side
-- of the payment calls, with its retries.
pub mod Failures
pub mod Retry
pub mod Calls
pub mod Laws
pub mod Outage
pub mod Loop
mod Tests
