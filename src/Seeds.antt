-- ===== src/Seeds.antt =====
-- src/seeds/seed.ts: the users, products and orders of a development database.
mod Data
pub mod Run
pub mod Laws
pub mod Memory
mod Tests
unfoldable pub use Data.*
