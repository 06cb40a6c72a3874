-- ===== src/Types.antt =====
-- gateway/types: the retry loop (retry.go) and the configuration (readconfig.go).
pub mod Retry
pub mod Config
mod Tests
