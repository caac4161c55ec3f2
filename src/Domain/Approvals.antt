-- ===== src/Domain/Approvals.antt =====
-- domain/approvals/aggregate.py: the immutable human decision on an exact quote version.
mod Facts
mod Methods
pub mod Route
pub mod Calls
pub mod Histories
mod Tests
pub mod Bindings
unfoldable pub use Facts.*
unfoldable pub use Methods.*
