-- ===== src/Migrations.antt =====
-- The schema migrations (migrations/runner.go).
mod Statements
mod Runner
mod Loading
pub mod Laws
unfoldable pub use Statements.*
unfoldable pub use Runner.*
unfoldable pub use Loading.*
