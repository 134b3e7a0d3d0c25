-- ===== src/Auth.antt =====
-- Authentication (internal/auth): the signed requests between the services, and the tokens of
-- installations and products.
mod Codecs
mod Clock
mod Services
mod Writers
mod Installations
mod Products
mod Identities
mod KeySets
pub mod Laws
unfoldable pub use Codecs.*
unfoldable pub use Clock.*
unfoldable pub use Services.*
unfoldable pub use Writers.*
unfoldable pub use Installations.*
unfoldable pub use Products.*
unfoldable pub use Identities.*
unfoldable pub use KeySets.*
