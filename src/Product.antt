-- ===== src/Product.antt =====
-- The product registry (internal/product/registry.go): what each product may send.
mod Defs
mod Plays
mod Cards
mod Speech
mod Registry
pub mod Laws
unfoldable pub use Defs.*
unfoldable pub use Plays.{linka_plays_spec}
unfoldable pub use Speech.{linka_tts_spec}
unfoldable pub use Registry.*
