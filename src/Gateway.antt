-- ===== src/Gateway.antt =====
-- gateway/main.go: the handlers of the gateway, and the routes that lead to them.
pub mod Routes
pub mod Calls
pub mod Functions
pub mod Store
pub mod Steps
pub mod Wiring
pub mod Start
pub mod Servers
pub mod Clients
mod Tests
