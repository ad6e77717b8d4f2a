-- ===== src/Application.antt =====
-- The application layer (app/application): the creation and the reading of events.
pub mod Service
mod Tests
