-- ===== src/JsonStrict/Laws.antt =====
-- That the scanner ends, and what it lets through.
pub mod Ends
pub mod Values
pub mod Strict
