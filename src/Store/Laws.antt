-- ===== src/Store/Laws.antt =====
-- What the store guarantees.
pub mod Ledger
pub mod Idempotency
