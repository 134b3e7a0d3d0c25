-- ===== src/Migrations/Laws.antt =====
-- What the runner guarantees.
pub mod Recorded
pub mod Settled
pub mod Loaded
