-- ===== src/Agent.antt =====
-- internal/agent: the process that runs a workflow and records the run.
pub mod Defs
pub mod Reporter
pub mod Run
mod Recorded
mod Closed
mod Samples
