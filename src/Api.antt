-- ===== src/Api.antt =====
-- The HTTP interface of app/api and app/main.py.
pub mod Http
pub mod Convert
pub mod Routers
pub mod App
pub mod Wiring
mod Tests
