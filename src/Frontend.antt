-- ===== src/Frontend.antt =====
-- internal/frontend: what a user does with a workflow.
pub mod Actions
mod Marks
mod Samples
