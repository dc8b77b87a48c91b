-- ===== src/Execution/Node.antt =====
-- internal/digraph/scheduler/node.go.
pub mod Defs
pub mod Continue
pub mod Samples
