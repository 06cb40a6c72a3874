-- ===== src/Scaling.antt =====
-- gateway/scaling: the cache of replica counts, the cached query, the scaler from zero, the limits
-- of a manual scaling request and the single-flight group.
pub mod Response
pub mod Cache
pub mod Cacher
pub mod Scaler
pub mod Ranges
pub mod FunctionQuery
mod Tests
pub mod Single
