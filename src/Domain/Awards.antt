-- ===== src/Domain/Awards.antt =====
-- domain/awards/aggregate.py: the delivery of an award and the supplier's answer.
mod Facts
mod Methods
pub mod Route
pub mod Calls
pub mod Histories
mod Tests
pub mod Bindings
unfoldable pub use Facts.*
unfoldable pub use Methods.*
