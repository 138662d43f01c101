-- ===== src/Billing/Numbering.antt =====
-- The numbering of invoices and credit notes (backend/src/services/invoiceNumbering.service.js). The
-- counter rows are locked for the length of a transaction, so allocations come one after another.
pub mod Decimal
mod Defs
pub mod Gapless
pub mod Format
unfoldable pub use Defs.*
