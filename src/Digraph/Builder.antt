-- ===== src/Digraph/Builder.antt =====
-- internal/digraph/builder.go and the files that it uses: from the values of a workflow file to the
-- workflow.
pub mod Result
pub mod Fields
pub mod Preconditions
pub mod Schedules
pub mod Commands
pub mod Steps
pub mod Ensures
pub mod Built
pub mod Functions
pub mod Workflow
pub mod Build
pub mod Chain
pub mod Collected
pub mod Samples
mod WorkflowSamples
