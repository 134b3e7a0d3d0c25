-- ===== src/Collector.antt =====
-- The collector service (internal/collector).
mod Interfaces
mod Access
mod Handlers
mod Client
pub mod Laws
unfoldable pub use Interfaces.*
unfoldable pub use Access.*
unfoldable pub use Handlers.*
unfoldable pub use Client.*
