-- ===== src/Persistence.antt =====
-- internal/persistence: what is kept of workflows and of their runs.
pub mod Cache
pub mod Record
pub mod History
