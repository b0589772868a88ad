-- ===== src/Performance.antt =====
-- performance/simple_performance.hpp: the response cache and the rate limiter.
pub mod Cache
pub mod Limiter
