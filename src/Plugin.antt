-- ===== src/Plugin.antt =====
-- gateway/plugin: the provider of functions behind an HTTP API.
pub mod External
mod Tests
