-- ===== src/Domain/Suppliers.antt =====
-- domain/suppliers/aggregate.py: the profile of a supplier, from the upload to its activation.
mod Facts
mod Methods
pub mod Route
pub mod Calls
pub mod Histories
mod Tests
unfoldable pub use Facts.*
unfoldable pub use Methods.*
