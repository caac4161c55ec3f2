-- ===== src/Domain/Procurement.antt =====
-- domain/procurement/aggregate.py: the lifecycle of a procurement request.
mod Facts
mod Sourcing
mod Commitment
pub mod Route
mod Steps
pub mod Moves
pub mod Calls
pub mod Histories
pub mod Grants
pub mod Sent
pub mod Bindings
mod Tests
unfoldable pub use Facts.*
unfoldable pub use Sourcing.*
unfoldable pub use Commitment.*
