-- ===== src/Digraph/Params.antt =====
-- The parameters of a workflow (internal/digraph/params.go).
pub mod Defs
pub mod Build
pub mod Override
mod Samples
