-- ===== src/Domain/Quotes.antt =====
-- domain/quotes/aggregate.py: a supplier's quote, from the request to the decision on it.
mod Facts
mod Methods
pub mod Route
pub mod Calls
mod Validation
pub mod Histories
mod Tests
unfoldable pub use Facts.*
unfoldable pub use Methods.*
