-- ===== src/Collector/Laws.antt =====
-- What the collector lets through, and what its answers mean.
pub mod Grants
pub mod Scopes
pub mod Installations
pub mod Chain
