-- ===== src/Plan.antt =====
-- Subscription plans: limits and usage (backend/src/services/planEnforcement.service.js).
mod Defs
pub mod Limits
mod Tests
unfoldable pub use Defs.*
