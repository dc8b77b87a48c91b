-- ===== src/Execution/Schedule.antt =====
-- internal/digraph/scheduler/scheduler.go.
pub mod Defs
pub mod Worker
pub mod Machine
pub mod Statuses
pub mod Quiet
pub mod Ready
pub mod Capacity
pub mod Ends
pub mod Samples
pub mod Told
pub mod Reported
pub mod Progress
