-- ===== src/Execution.antt =====
-- internal/digraph/scheduler: one run of a workflow.
pub mod Status
pub mod Data
pub mod Graph
pub mod Node
pub mod Schedule
