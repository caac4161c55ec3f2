-- ===== src/Contracts.antt =====
-- contracts/common.py: the enumerations of the wire contract and what they share.
mod Enums
mod Suppliers
mod Procurement
mod Quotes
mod Decisions
unfoldable pub use Enums.*
unfoldable pub use Suppliers.*
unfoldable pub use Procurement.*
unfoldable pub use Quotes.*
unfoldable pub use Decisions.*
