-- ===== src/Status.antt =====
-- The two status machines: shipments (backend/src/services/shipmentStatus.service.js) and orders
-- (backend/src/services/orderStatus.service.js).
pub mod Shipments
pub mod Orders
mod Tests
