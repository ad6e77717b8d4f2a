-- ===== src/Scalability.antt =====
-- The services that protect the engine under load (app/scalability).
pub mod CircuitBreaker
pub mod Autoscaling
pub mod Partition
pub mod RateLimiter
pub mod DistributedLock
pub mod Bulkhead
pub mod HealthMonitor
mod Tests
