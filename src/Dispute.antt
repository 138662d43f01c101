-- ===== src/Dispute.antt =====
-- Disputes on the weight that a courier charged (backend/src/services/weightDispute.service.js,
-- backend/src/repositories/weightDispute.repository.js, backend/src/models/weightDiscrepancyDispute.model.js).
mod Defs
pub mod Refused
mod Tests
unfoldable pub use Defs.*
