-- ===== src/ContractV2/Laws.antt =====
-- What the V2 contract accepts: a module for the fields, one for each stream.
pub mod Patterns
pub mod Fields
mod Optional
pub mod Common
pub mod Technical
pub mod Plays
pub mod Outcome
pub mod Unique
pub mod Batches
pub mod Accepted
pub mod Exact
pub mod Complete
