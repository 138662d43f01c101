-- ===== src/Tickets.antt =====
-- Support tickets (backend/src/services/supportTicket.service.js), their numbers
-- (backend/src/utils/sequentialNumber.util.js) and the times by which they are due
-- (backend/src/services/ticketSla.service.js).
mod Defs
mod Opening
mod Service
mod Sla
mod Numbered
mod Opened
pub mod Unique
pub mod Breaches
pub mod Moves
mod Tests
unfoldable pub use Defs.*
unfoldable pub use Opening.*
unfoldable pub use Service.*
unfoldable pub use Sla.*
