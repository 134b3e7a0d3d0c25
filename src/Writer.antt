-- ===== src/Writer.antt =====
-- The writer service (internal/writer/server.go).
mod Interfaces
mod Handlers
pub mod Laws
unfoldable pub use Interfaces.*
unfoldable pub use Handlers.*
