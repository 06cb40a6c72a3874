-- ===== src/Metrics.antt =====
-- gateway/metrics: the query of Prometheus, the invocation counts that are mixed into a list of
-- functions, and the exporter of replica counts.
pub mod Query
pub mod Added
pub mod Exporter
pub mod Options
mod Tests
