-- ===== src/Remittance.antt =====
-- Batches of cash on delivery that are paid to a seller (backend/src/services/codRemittance.service.js,
-- backend/src/models/codRemittance.model.js).
mod Defs
pub mod Once
pub mod Races
mod Tests
unfoldable pub use Defs.*
