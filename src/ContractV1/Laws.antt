-- ===== src/ContractV1/Laws.antt =====
-- What the V1 contract accepts: the fields, the dimensions of an event, events, session summaries,
-- batches and privacy requests.
mod Fields
pub mod Patterns
pub mod Dimensions
pub mod Events
pub mod Summaries
pub mod Batches
pub mod Privacy
