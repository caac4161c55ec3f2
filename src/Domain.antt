-- ===== src/Domain.antt =====
-- The domain aggregates.
pub mod Common
pub mod Procurement
pub mod Suppliers
pub mod Quotes
pub mod Approvals
pub mod Awards
