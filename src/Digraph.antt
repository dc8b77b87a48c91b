-- ===== src/Digraph.antt =====
-- internal/digraph: what a workflow file describes.
pub mod Step
pub mod Variables
pub mod Value
pub mod Builder
pub mod Dag
pub mod Params
pub mod Conditions
