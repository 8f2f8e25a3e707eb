-- ===== src/Files.antt =====
-- src/files/files.service.ts: uploads that a client sends to a storage itself. `Service` has the
-- operations, the other children what they guarantee.
pub mod Storage
mod Service
mod Store
pub mod Uploads
pub mod Keys
pub mod Views
mod Tests
unfoldable pub use Service.*
unfoldable pub use Store.*
