-- ===== src/Database.antt =====
-- The tables that the services share (src/migrations), and TypeORM's operations on them. TypeORM and
-- PostgreSQL are not part of the repository: their operations are the fields of `Orm`, with what the
-- services rely on as laws. A read gives what the tables hold; a write may fail with a driver error,
-- and then a transaction is rolled back to the tables that it began with.
mod Schema
mod Memory
mod Table
mod Rows
unfoldable pub use Table.*
unfoldable pub use Rows.{listed}
unfoldable pub use Schema.*
unfoldable pub use Memory.{memory}
