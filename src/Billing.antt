-- ===== src/Billing.antt =====
-- Billing: the tax split, the numbering of documents, and the documents of a shipment.
pub mod Tax
pub mod Numbering
pub mod Documents
pub mod Once
mod Tests
