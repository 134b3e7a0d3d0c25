-- ===== src/Store.antt =====
-- The ClickHouse store (internal/clickhouse): what it asks of the database, and how it uses it.
mod Replies
mod Tables
mod Ingest
pub mod Laws
unfoldable pub use Replies.*
unfoldable pub use Tables.*
unfoldable pub use Ingest.*
