-- ===== src/ContractV1.antt =====
-- The V1 telemetry contract (internal/contract/v1).
mod Types
mod Properties
mod Fields
mod Cases
mod Batches
mod Privacy
pub mod Laws
unfoldable pub use Types.*
unfoldable pub use Properties.*
unfoldable pub use Fields.*
unfoldable pub use Cases.*
unfoldable pub use Batches.*
unfoldable pub use Privacy.*
