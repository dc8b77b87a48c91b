-- ===== src/Persistence/Record.antt =====
-- The records of runs (internal/persistence/model).
pub mod Defs
pub mod Reread
pub mod Samples
