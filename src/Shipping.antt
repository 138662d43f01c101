-- ===== src/Shipping.antt =====
-- Booking and cancelling shipments (backend/src/services/shipment.service.js), over the wallet, the
-- plans, the billing tables and the two status machines.
mod Defs
mod Session
mod Booking
mod Cancelling
pub mod Atomic
pub mod Booked
pub mod Refund
pub mod RoundTrip
mod Tests
unfoldable pub use Defs.*
unfoldable pub use Session.*
unfoldable pub use Booking.*
unfoldable pub use Cancelling.*
