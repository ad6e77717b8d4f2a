-- ===== src/Domain.antt =====
-- The domain layer (app/domain): the life cycle of an event, the event entities and request
-- schemas, and the validators of requests and entities.
pub mod Status
pub mod Event
pub mod Schema
pub mod Validators
pub mod Lifecycle
pub mod Requests
mod Tests
