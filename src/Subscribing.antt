-- ===== src/Subscribing.antt =====
-- Subscriptions over time: their start, the change of plan and the access to couriers
-- (backend/src/services/subscriptionPlan.service.js), and the renewal
-- (backend/src/services/planRenewal.service.js). Mails and audit rows are not modelled.
mod Defs
mod Renewing
mod Changing
pub mod Access
pub mod Suspends
pub mod Upgrade
mod Tests
unfoldable pub use Defs.*
unfoldable pub use Renewing.*
unfoldable pub use Changing.*
