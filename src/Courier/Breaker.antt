-- ===== src/Courier/Breaker.antt =====
-- The circuit breaker of a provider (backend/src/providers/shared/circuitBreaker.util.js).
mod Defs
pub mod Cooldown
mod Tests
unfoldable pub use Defs.*
