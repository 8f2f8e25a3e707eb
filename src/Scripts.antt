-- ===== src/Scripts.antt =====
-- scripts, the command lines of the developers.
mod Args
pub mod Publish
mod Check
mod Tests
unfoldable pub use Args.*
