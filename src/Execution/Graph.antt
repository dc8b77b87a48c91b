-- ===== src/Execution/Graph.antt =====
-- internal/digraph/scheduler/graph.go.
pub mod Defs
pub mod Linked
pub mod Kahn
pub mod Rounds
pub mod Cycles
pub mod Links
pub mod Setup
pub mod Construct
pub mod Sweeps
pub mod Ranks
pub mod Resets
pub mod Retry
pub mod Build
pub mod Samples
