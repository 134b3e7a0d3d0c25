-- ===== src/Privacy.antt =====
-- Privacy requests (internal/privacy and internal/clickhouse/store_privacy.go): their queue, and
-- the deletion of what they name.
mod Requests
mod Versions
mod Statements
mod Queue
mod Deletion
mod Worker
pub mod Laws
unfoldable pub use Requests.*
unfoldable pub use Versions.*
unfoldable pub use Statements.*
unfoldable pub use Queue.*
unfoldable pub use Deletion.*
unfoldable pub use Worker.*
