-- ===== src/Infrastructure.antt =====
-- The stores of app/infrastructure.
pub mod Redis
pub mod RedisEvents
pub mod WorkflowStates
pub mod DbEvents
pub mod Repository
pub mod Publisher
pub mod InMemory
pub mod Samples
mod Tests
