-- ===== src/Domain/Common.antt =====
-- domain/common: what the five aggregates share.
mod Errors
mod Values
mod Root
pub mod Methods
pub mod Outcomes
pub mod Audit
pub mod Lifecycle
pub mod Checks
pub use Errors.*
unfoldable pub use Values.*
unfoldable pub use Root.*
