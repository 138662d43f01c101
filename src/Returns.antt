-- ===== src/Returns.antt =====
-- Failed deliveries and returns: their detection in the scans of a courier
-- (backend/src/services/ndrDetection.service.js, backend/src/constants/ndrReasonCodes.constant.js),
-- the actions of a seller (backend/src/services/ndr.service.js), and the returns to the origin
-- (backend/src/services/rto.service.js).
mod Words
mod Defs
mod Detection
mod Actions
mod Keeping
mod Scanned
mod Acted
pub mod Races
pub mod Single
mod Attempts
pub mod Threshold
pub mod Resets
pub mod Received
pub mod Batch
mod Tests
unfoldable pub use Words.*
unfoldable pub use Defs.*
unfoldable pub use Detection.*
unfoldable pub use Actions.*
