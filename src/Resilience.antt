-- ===== src/Resilience.antt =====
-- crates/resilience: the circuit breaker, the rate limiter and the retry middleware.
pub mod Breaker
pub mod Limiter
pub mod Retry
