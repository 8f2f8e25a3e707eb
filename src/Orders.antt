-- ===== src/Orders.antt =====
-- src/orders/order.service.ts: `OrdersService`. `Create` places an order, `Process` handles the
-- message about it, `Access` and `Manage` are the operations on one order. The other modules prove what
-- `Create` and `Process` do.
pub mod Message
pub mod Create
pub mod Stock
pub mod Placement
pub mod Replay
pub mod Process
pub mod Processing
pub mod Effects
pub mod Access
pub mod Manage
pub mod Runs
pub mod Deliveries
pub mod Events
pub mod Broadcast
pub mod Rxjs
pub mod Journey
pub mod Listing
pub mod Pages
pub mod Rows
pub mod Controller
pub mod Response
pub mod Payment
mod EventTests
mod ListingTests
pub mod Shop
mod PaymentTests
mod RunTests
mod Tests
