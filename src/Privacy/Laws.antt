-- ===== src/Privacy/Laws.antt =====
-- What holds of privacy requests.
pub mod Versions
pub mod Claims
pub mod Deletion
pub mod Creation
pub mod Runs
pub mod Legacy
