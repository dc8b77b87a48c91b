-- ===== src/Persistence/History.antt =====
-- The history of runs (internal/persistence/jsondb), a file of status records for each run.
pub mod Files
pub mod Writer
mod Lines
mod Parse
pub mod Written
mod Effects
mod Compact
pub mod Update
pub mod Find
pub mod Session
pub mod Recorded
pub mod Remove
mod Sort
mod Success
pub mod Read
pub mod Move
pub mod Store
pub mod Defs
pub mod Samples
