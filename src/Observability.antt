-- ===== src/Observability.antt =====
-- The observability layer (app/observability): metrics, cost, traces, generation log, failure
-- categories and decision scores. All of it is kept in memory.
pub mod Arithmetic
pub mod Metrics
pub mod Cost
pub mod Tracing
pub mod Langfuse
pub mod Failure
pub mod Evaluation
mod Tests
