-- ===== src/Wallet.antt =====
-- The wallet service (backend/src/services/wallet.service.js) over its tables
-- (backend/src/models/wallet.model.js, walletTransaction.model.js). Money is in paise; a wallet
-- holds two decimals, and amounts are taken to have no more. An amount that is `NaN` is `none`.
mod Defs
pub mod Ledger
pub mod Outcome
pub mod Payments
pub mod Reconcile
pub mod Refund
mod Tests
unfoldable pub use Defs.*
