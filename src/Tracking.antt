-- ===== src/Tracking.antt =====
-- Courier scans (backend/src/services/tracking.service.js over backend/src/models/trackingEvent.model.js):
-- ingestion, the flag of stuck shipments, and the shipments to poll. The two timelines, which only
-- read, are not modelled.
mod Defs
pub mod Twice
pub mod Life
mod Tests
unfoldable pub use Defs.*
