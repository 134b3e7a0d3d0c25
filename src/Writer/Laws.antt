-- ===== src/Writer/Laws.antt =====
-- What the writer's answers mean.
pub mod Batches
