-- ===== src/Courier.antt =====
-- Calls of courier providers: the circuit breaker and the retries.
pub mod Breaker
pub mod Retry
mod Tests
