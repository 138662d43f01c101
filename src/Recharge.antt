-- ===== src/Recharge.antt =====
-- The recharges of a wallet through a payment gateway (backend/src/services/recharge.service.js,
-- backend/src/models/rechargeOrder.model.js). The gateway is a parameter. The mail that follows a
-- verified payment is not modelled.
mod Defs
pub mod Confirming
pub mod Once
pub mod Late
pub mod Stuck
mod Tests
unfoldable pub use Defs.*
