-- ===== src/Workflow.antt =====
-- The workflows (app/workflows/langgraph): their states, the nodes, and the engine that runs the
-- nodes with the observability hooks and the state store.
pub mod State
pub mod Nodes
pub mod Compliance
pub mod Setup
pub mod Engine
pub mod Kinds
pub mod Decides
pub mod Hooks
pub mod Cache
pub mod Spans
mod Tests
