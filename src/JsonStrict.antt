-- ===== src/JsonStrict.antt =====
-- Strict JSON (internal/jsonstrict).
mod Tokens
mod Validation
pub mod Laws
unfoldable pub use Tokens.*
unfoldable pub use Validation.*
