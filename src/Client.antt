-- ===== src/Client.antt =====
-- internal/client: what other parts ask about a workflow.
pub mod Status
pub mod Samples
