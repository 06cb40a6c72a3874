-- ===== src/Handlers.antt =====
-- gateway/handlers: the HTTP handlers of the gateway.
pub mod Forwarding
pub mod Alert
pub mod Scaling
mod Tests
pub mod CallId
pub mod Notifiers
pub mod Queue
pub mod Health
pub mod Info
pub mod Logs
