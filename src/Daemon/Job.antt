-- ===== src/Daemon/Job.antt =====
-- internal/scheduler/job.go, and what internal/scheduler/scheduler.go does with a job.
pub mod Defs
pub mod Once
pub mod Samples
