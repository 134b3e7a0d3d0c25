-- ===== src/ContractV2.antt =====
-- The V2 telemetry contract (internal/contract/v2).
mod Types
mod Fields
mod Records
mod Batches
pub mod Laws
unfoldable pub use Types.*
unfoldable pub use Fields.*
unfoldable pub use Records.*
unfoldable pub use Batches.*
