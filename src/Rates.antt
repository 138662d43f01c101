-- ===== src/Rates.antt =====
-- The rates of the couriers for an order (backend/src/services/rateComparison.service.js), and the margins on
-- them (backend/src/services/carrierMarginConfig.service.js over
-- backend/src/repositories/carrierMarginConfig.repository.js).
mod Margins
mod Configs
mod Comparing
pub mod First
pub mod Chosen
pub mod Quoted
mod Tests
unfoldable pub use Margins.*
unfoldable pub use Configs.*
unfoldable pub use Comparing.*
