-- ===== src/Auth/Laws.antt =====
-- What the signatures and the tokens guarantee.
pub mod Services
pub mod Installations
pub mod Products
pub mod Identities
pub mod KeySets
